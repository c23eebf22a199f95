-- ===== src/Address/Masks.antt =====
-- sylar/address.cpp: masks of an address with a part for its network and one for its host.
use Prim.Native.Nat.{bit_and, bit_or}
use native.Mathlib.Nat.{one-le-pow}
use server_framework_learnin.Prelude.{
  ℕ, ◌+◌, ◌-◌, ◌*◌, ◌/◌, ◌%◌, ◌^◌, ◌≤◌, ◌<◌, ◌≡◌, refl, ap, ◌∙◌, true, false, List, [], ◌∷◌, ◌++◌,
  some, length, replicate, leb, ltb, done, arith,
}
use server_framework_learnin.Prelude.Masks.{bit_or_mask, bit_and_mask}
use server_framework_learnin.Address.{
  create_mask32, create_mask8, broadcast_address4, netword_address4, subnet_mask4, change_from,
  broadcast_address6, netword_address6,
}

create_mask32_lem : (p : ℕ) → 2 ≤ p → p ≤ 32 → create_mask32 p ≡ done (2 ^ (32 - p) - 1)
unfolding create_mask32
create_mask32_lem p low high =
    let above : leb 2 p ≡ true = ground (arith, low) in
    let below : leb p 32 ≡ true = ground (arith, high) in rw (above, below) refl

-- For an IPv4 address of a network part of `p` bits, `p` from 2 to 32, and a host part,
-- broadcastAddress gives the network part with ones behind it, subnetMask `p` ones with zeros
-- behind them, and networdAddress the host part, without the network part.
pub ipv4_lem :
    (p network host : ℕ)
    → 2 ≤ p
    → p ≤ 32
    → host < 2 ^ (32 - p)
    → (broadcast_address4 p (network * 2 ^ (32 - p) + host)
        ≡ done (some (network * 2 ^ (32 - p) + (2 ^ (32 - p) - 1))))
      × (netword_address4 p (network * 2 ^ (32 - p) + host) ≡ done (some host))
      × (subnet_mask4 p ≡ done (2 ^ 32 - 2 ^ (32 - p)))
unfolding broadcast_address4 netword_address4 subnet_mask4
ipv4_lem p network host low high fits =
    let few : ltb 32 p ≡ false = ground (arith, high) in
    let m = create_mask32_lem p low high in
    (
      rw (few, m, bit_or_mask (32 - p) network host fits) refl,
      rw (few, m, bit_and_mask (32 - p) network host fits) refl,
      rw m (ap done (omega (arith, one-le-pow (32 - p) 2))),
    )

-- Bytes in front of the one that is changed stay.
change_from-append :
    (front : List ℕ) (f : ℕ → ℕ) (fill b : ℕ) (behind : List ℕ)
    → change_from (length front) f fill (front ++ b ∷ behind)
      ≡ done (front ++ f b ∷ replicate (length behind) fill)
unfolding change_from
change_from-append [] f fill b behind = refl
change_from-append (x ∷ front) f fill b behind = rw (change_from-append front f fill b behind) refl

-- For an IPv6 address and a prefix that ends in one of its bytes, broadcastAddress keeps the bytes
-- before that one and its bits of the prefix, and sets all bits behind, while networdAddress keeps
-- the bytes before it and its bits behind the prefix, and clears its bits of the prefix and the
-- bytes behind it.
pub ipv6_lem :
    (p : ℕ) (front behind : List ℕ) (network host : ℕ)
    → length front ≡ p / 8
    → host < 2 ^ (8 - p % 8)
    → let h = 2 ^ (8 - p % 8) in
      let addr = front ++ (network * h + host) ∷ behind in
      (broadcast_address6 p addr
        ≡ done (front ++ (network * h + (h - 1)) ∷ replicate (length behind) 255))
      × (netword_address6 p addr ≡ done (front ++ host ∷ replicate (length behind) 0))
unfolding broadcast_address6 netword_address6 create_mask8
ipv6_lem p front behind network host e fits =
    let h = 2 ^ (8 - p % 8) in
    let b = network * h + host in
    (
      rw (← e) (
          change_from-append front (λ x. bit_or x (h - 1)) 255 b behind
          ∙ rw (bit_or_mask (8 - p % 8) network host fits) refl),
      rw (← e) (
          change_from-append front (λ x. bit_and x (h - 1)) 0 b behind
          ∙ rw (bit_and_mask (8 - p % 8) network host fits) refl),
    )
