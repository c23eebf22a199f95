-- ===== src/Prelude/Bits.antt =====
-- The native bit operations on variables: one equation for the lowest digit, and from it the laws
-- of disjoint fields, low masks and full masks.
use Prim.Native.Nat.{
  ℕ, zero, suc, ◌+◌, ◌-◌, ◌*◌, ◌/◌, ◌%◌, ◌^◌, ◌≤◌, ◌<◌, min, max, digits, bitwise, bit_and, bit_or,
  bit_xor, bit_and-bitwise, bit_or-bitwise, bit_xor-bitwise, differ,
}
use mathlib.Core.Path.{◌≡◌, refl, ap}
use native.Mathlib.Omega.{arith}
use native.Mathlib.Nat.{zero-add, suc-add, le_refl, pow-suc, one-le-pow}

-- `digits` stops at 0, so that spare fuel changes nothing.
spare_fuel :
    (start : ℕ → ℕ) (op : ℕ → ℕ → ℕ) (spare fuel x y : ℕ)
    → x ≤ fuel
    → digits start op (fuel + spare) x y ≡ digits start op fuel x y
spare_fuel start op spare zero (suc x) y enough = absurd (omega arith)
spare_fuel start op spare (suc less) (suc x) y enough =
    rw (suc-add, spare_fuel start op spare less (suc x / 2) (y / 2) (omega arith)) refl
spare_fuel start op zero zero zero y enough = refl
spare_fuel start op (suc spare) zero zero y enough = rw zero-add refl
spare_fuel start op spare (suc less) zero y enough = rw suc-add refl

lowest_digit :
    (start : ℕ → ℕ) (op : ℕ → ℕ → ℕ) (x y : ℕ)
    → bitwise start op (suc x) y ≡ bitwise start op (suc x / 2) (y / 2) * 2 + op (suc x % 2) (y % 2)
lowest_digit start op x y =
    let half = suc x / 2 in
    let all : half + (x - half) ≡ x = omega arith in
    let same = spare_fuel start op (x - half) half half (y / 2) (omega arith) in
    ap (λ (t : ℕ). t * 2 + op (suc x % 2) (y % 2)) (rw all at same)

pub bit_or_step : (x y : ℕ) → bit_or x y ≡ bit_or (x / 2) (y / 2) * 2 + max (x % 2) (y % 2)
bit_or_step (suc x) y = simp bit_or-bitwise (lowest_digit (λ t. t) max x y)
bit_or_step zero y = simp bit_or-bitwise (omega arith)

pub bit_and_step : (x y : ℕ) → bit_and x y ≡ bit_and (x / 2) (y / 2) * 2 + min (x % 2) (y % 2)
bit_and_step (suc x) y = simp bit_and-bitwise (lowest_digit (λ t. 0) min x y)
bit_and_step zero y = simp bit_and-bitwise (omega arith)

differ_bits : (x y : ℕ) → x < 2 → y < 2 → differ x y ≡ (x + y) % 2
differ_bits zero y h k = omega arith
differ_bits (suc zero) zero h k = refl
differ_bits (suc zero) (suc zero) h k = refl
differ_bits (suc zero) (suc (suc y)) h k = absurd (omega arith)
differ_bits (suc (suc x)) y h k = absurd (omega arith)

differ_parity : (a b : ℕ) → differ (a % 2) (b % 2) ≡ (a + b) % 2
differ_parity a b = omega (arith, differ_bits (a % 2) (b % 2) (omega arith) (omega arith))

pub bit_xor_step : (a b : ℕ) → bit_xor a b ≡ bit_xor (a / 2) (b / 2) * 2 + (a + b) % 2
bit_xor_step zero b = simp bit_xor-bitwise (omega arith)
bit_xor_step (suc a) b =
    simp bit_xor-bitwise (omega (arith, lowest_digit (λ t. t) differ a b, differ_parity (suc a) b))

-- The second operand is 0.
zero_right : (n a : ℕ) → a ≤ n → (bit_or a 0 ≡ a) × (bit_and a 0 ≡ 0) × (bit_xor a 0 ≡ a)
zero_right n zero h = (refl, refl, refl)
zero_right zero (suc a) h = absurd (omega arith)
zero_right (suc n) (suc a) h =
    let (o, d, x) = zero_right n (suc a / 2) (omega arith) in
    (
      omega (arith, bit_or_step (suc a) 0),
      omega (arith, bit_and_step (suc a) 0),
      omega (arith, bit_xor_step (suc a) 0),
    )

pub bit_or-zero : (a : ℕ) → bit_or a 0 ≡ a
bit_or-zero a = (zero_right a a (le_refl a)).0

pub bit_and-zero : (a : ℕ) → bit_and a 0 ≡ 0
bit_and-zero a = (zero_right a a (le_refl a)).1

pub bit_xor-zero : (a : ℕ) → bit_xor a 0 ≡ a
bit_xor-zero a = (zero_right a a (le_refl a)).2

zero-bit_or : (a : ℕ) → bit_or 0 a ≡ a
zero-bit_or a = simp bit_or-bitwise

field_up : (k v : ℕ) → v * 2 ^ suc k ≡ 2 * (v * 2 ^ k)
field_up k v = let twice : 2 ^ suc k ≡ 2 ^ k * 2 = pow-suc 2 k in rw twice (grind arith)

-- `r | (q << k)` is a sum when `r` fits `k` bits.
pub bit_or_fields : (k r q : ℕ) → r < 2 ^ k → bit_or r (q * 2 ^ k) ≡ r + q * 2 ^ k
bit_or_fields zero r q fits = ground (arith, zero-bit_or q)
bit_or_fields (suc k) r q fits = ground (
  arith,
  bit_or_step r (q * 2 ^ suc k),
  field_up k q,
  pow-suc 2 k,
  bit_or_fields k (r / 2) q (omega (arith, pow-suc 2 k)),
)

-- `x ^ m`, for `m` of `k` ones, turns each of the `k` bits over.
pub bit_xor_ones : (k x : ℕ) → x < 2 ^ k → bit_xor x (2 ^ k - 1) + x + 1 ≡ 2 ^ k
bit_xor_ones zero x fits = ground (arith, bit_xor-zero x)
bit_xor_ones (suc k) x fits = ground (
  arith,
  bit_xor_step x (2 ^ suc k - 1),
  pow-suc 2 k,
  one-le-pow k 2,
  bit_xor_ones k (x / 2) (omega (arith, pow-suc 2 k)),
)

pub bit_and-one : (a : ℕ) → bit_and a 1 ≡ a % 2
bit_and-one a = omega (arith, bit_and_step a 1, bit_and-zero (a / 2))

pub bit_and_seven_bits : (a : ℕ) → bit_and a 0x7f ≡ a % 128
bit_and_seven_bits a = omega (
  arith,
  bit_and_step a 0x7f,
  bit_and_step (a / 2) 0x3f,
  bit_and_step (a / 2 / 2) 0x1f,
  bit_and_step (a / 2 / 2 / 2) 0xf,
  bit_and_step (a / 2 / 2 / 2 / 2) 7,
  bit_and_step (a / 2 / 2 / 2 / 2 / 2) 3,
  bit_and-one (a / 2 / 2 / 2 / 2 / 2 / 2),
)

pub set_top_bit : (r : ℕ) → r < 128 → bit_or r 0x80 ≡ r + 128
set_top_bit r h = bit_or_fields 7 r 1 h
