-- ===== src/Address.antt =====
-- sylar/address.cpp: the masks of IPv4 and IPv6 addresses. The s_addr of an IPv4 address is taken as
-- the number of its four bytes in the order of the network, in which the swap of the mask's bytes
-- cancels out; an IPv6 address is the list of its sixteen bytes. A shift by 32 or more, or one into
-- or past the sign of an int, has no defined behaviour, and neither has an index out of the bytes.
pub mod Masks
mod Runs
use Prim.Native.Nat.{bit_and, bit_or}
use server_framework_learnin.Prelude.{
  ℕ, zero, suc, ◌+◌, ◌-◌, ◌/◌, ◌%◌, ◌^◌, Bool, true, false, ◌&&◌, List, [], ◌∷◌, ◌++◌, Option, none,
  some, length, take, get_elem?, set, replicate, leb, ltb, if◌then◌else◌, Outcome, done, fault,
  ◌>>=◌,
}

-- CreateMask<uint32_t>.
unfoldable pub create_mask32 : ℕ → Outcome ℕ
create_mask32 bits = if leb 2 bits && leb bits 32 then done (2 ^ (32 - bits) - 1) else fault

-- CreateMask<uint8_t>, of less than 8 bits.
unfoldable pub create_mask8 : ℕ → ℕ
create_mask8 bits = 2 ^ (8 - bits) - 1

-- IPv4Address::broadcastAddress.
unfoldable pub broadcast_address4 : ℕ → ℕ → Outcome (Option ℕ)
broadcast_address4 prefix_len addr =
    if ltb 32 prefix_len
    then done none
    else (create_mask32 prefix_len >>= λ (m : ℕ). done (some (bit_or addr m)))

-- IPv4Address::networdAddress.
unfoldable pub netword_address4 : ℕ → ℕ → Outcome (Option ℕ)
netword_address4 prefix_len addr =
    if ltb 32 prefix_len
    then done none
    else (create_mask32 prefix_len >>= λ (m : ℕ). done (some (bit_and addr m)))

-- IPv4Address::subnetMask.
unfoldable pub subnet_mask4 : ℕ → Outcome ℕ
subnet_mask4 prefix_len = create_mask32 prefix_len >>= λ (m : ℕ). done (2 ^ 32 - 1 - m)

-- One byte is changed, and those behind it are filled.
unfoldable pub change_from : ℕ → (ℕ → ℕ) → ℕ → List ℕ → Outcome (List ℕ)
change_from zero f fill [] = fault
change_from zero f fill (b ∷ bs) = done (f b ∷ replicate (length bs) fill)
change_from (suc n) f fill [] = fault
change_from (suc n) f fill (b ∷ bs) = change_from n f fill bs >>= λ (rest : List ℕ). done (b ∷ rest)

-- IPv6Address::broadcastAddress.
unfoldable pub broadcast_address6 : ℕ → List ℕ → Outcome (List ℕ)
broadcast_address6 prefix_len addr =
    change_from (prefix_len / 8) (λ b. bit_or b (create_mask8 (prefix_len % 8))) 255 addr

-- IPv6Address::networdAddress.
unfoldable pub netword_address6 : ℕ → List ℕ → Outcome (List ℕ)
netword_address6 prefix_len addr =
    change_from (prefix_len / 8) (λ b. bit_and b (create_mask8 (prefix_len % 8))) 0 addr
