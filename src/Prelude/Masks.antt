-- ===== src/Prelude/Masks.antt =====
-- A number over a low mask: its high part and its low part.
use Prim.Native.Nat.{ℕ, zero, suc, ◌+◌, ◌-◌, ◌*◌, ◌/◌, ◌^◌, ◌<◌, bit_and, bit_or}
use mathlib.Core.Path.{◌≡◌, ◌∙◌}
use native.Mathlib.Omega.{arith}
use native.Mathlib.Nat.{pow-suc, one-le-pow}
use server_framework_learnin.Prelude.Bits.{bit_and_step, bit_or_step, bit_or-zero, bit_and-zero}

doubled : (k q : ℕ) → q * 2 ^ suc k ≡ q * 2 ^ k * 2
doubled k q = let twice : 2 ^ suc k ≡ 2 ^ k * 2 = pow-suc 2 k in rw twice (grind arith)

pub bit_or_mask :
    (k q r : ℕ) → r < 2 ^ k → bit_or (q * 2 ^ k + r) (2 ^ k - 1) ≡ q * 2 ^ k + (2 ^ k - 1)
bit_or_mask zero q r h = ground (arith, bit_or-zero (q * 2 ^ 0 + r))
bit_or_mask (suc k) q r h =
    let low : r / 2 < 2 ^ k = omega (arith, pow-suc 2 k, h) in
    let half : (q * 2 ^ suc k + r) / 2 ≡ q * 2 ^ k + r / 2 = omega (arith, doubled k q) in
    let ones : (2 ^ suc k - 1) / 2 ≡ 2 ^ k - 1 = omega (arith, pow-suc 2 k, one-le-pow k 2) in
    bit_or_step (q * 2 ^ suc k + r) (2 ^ suc k - 1)
    ∙ rw (half, ones, bit_or_mask k q (r / 2) low)
        (omega (arith, doubled k q, pow-suc 2 k, one-le-pow k 2))

pub bit_and_mask : (k q r : ℕ) → r < 2 ^ k → bit_and (q * 2 ^ k + r) (2 ^ k - 1) ≡ r
bit_and_mask zero q r h = ground (arith, bit_and-zero (q * 2 ^ 0 + r))
bit_and_mask (suc k) q r h =
    let low : r / 2 < 2 ^ k = omega (arith, pow-suc 2 k, h) in
    let half : (q * 2 ^ suc k + r) / 2 ≡ q * 2 ^ k + r / 2 = omega (arith, doubled k q) in
    let ones : (2 ^ suc k - 1) / 2 ≡ 2 ^ k - 1 = omega (arith, pow-suc 2 k, one-le-pow k 2) in
    bit_and_step (q * 2 ^ suc k + r) (2 ^ suc k - 1)
    ∙ rw (half, ones, bit_and_mask k q (r / 2) low)
        (omega (arith, doubled k q, pow-suc 2 k, one-le-pow k 2))
