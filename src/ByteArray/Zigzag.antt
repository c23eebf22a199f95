-- ===== src/ByteArray/Zigzag.antt =====
-- The zigzag code of signed integers, on bit patterns.
use server_framework_learnin.Prelude.{
  ℕ, ◌-◌, ◌/◌, ◌%◌, ◌^◌, ◌≤◌, ◌<◌, ◌≡◌, ◌↔◌, ◌⊎◌, ◌∙◌, inl, inr, leb, if◌then◌else◌, Bool-cases,
  arith,
}
use server_framework_learnin.Prelude.Bits.{bit_and-one, bit_xor-zero, bit_xor_ones}
use server_framework_learnin.ByteArray.Codec.{
  encode_zigzag32, encode_zigzag64, sign_extend, decode_zigzag32, decode_zigzag64,
}

-- Decoding in arithmetic: an even code is half of itself, an odd one the complement of its half.
pub decode_zigzag32_lem :
    (c : ℕ) → c < 2 ^ 32 → decode_zigzag32 c ≡ (if leb 1 (c % 2) then 2 ^ 32 - 1 - c / 2 else c / 2)
unfolding decode_zigzag32
decode_zigzag32_lem c h = elim (Bool-cases (leb 1 (c % 2))) [
  | inl odd ↦
      let one : c % 2 ≡ 1 = ground arith in
      rw (odd, bit_and-one c, one) (omega (arith, bit_xor_ones 32 (c / 2) (omega arith)))
  | inr even ↦
      let none : c % 2 ≡ 0 = ground arith in rw (even, bit_and-one c, none) (bit_xor-zero (c / 2))
]

pub decode_zigzag64_lem :
    (c : ℕ) → c < 2 ^ 64 → decode_zigzag64 c ≡ (if leb 1 (c % 2) then 2 ^ 64 - 1 - c / 2 else c / 2)
unfolding decode_zigzag64
decode_zigzag64_lem c h = elim (Bool-cases (leb 1 (c % 2))) [
  | inl odd ↦
      let one : c % 2 ≡ 1 = ground arith in
      rw (odd, bit_and-one c, one) (omega (arith, bit_xor_ones 64 (c / 2) (omega arith)))
  | inr even ↦
      let none : c % 2 ≡ 0 = ground arith in rw (even, bit_and-one c, none) (bit_xor-zero (c / 2))
]

encode_zigzag32-lt : (v : ℕ) → encode_zigzag32 v < 2 ^ 32
unfolding encode_zigzag32
encode_zigzag32-lt v = ground arith

-- DecodeZigzag32 undoes EncodeZigzag32 on every 32-bit pattern.
pub decode-encode_zigzag32 : (v : ℕ) → v < 2 ^ 32 → decode_zigzag32 (encode_zigzag32 v) ≡ v
decode-encode_zigzag32 v h =
    decode_zigzag32_lem (encode_zigzag32 v) (encode_zigzag32-lt v)
    ∙ (unfold encode_zigzag32 in ground arith)

-- For a 32-bit pattern that is coded twice, as writeInt32 does, and decoded once, as readInt32
-- does, the result is the pattern if and only if it is 0.
pub decode-encode-encode_zigzag32 :
    (v : ℕ) → v < 2 ^ 32 → (decode_zigzag32 (encode_zigzag32 (encode_zigzag32 v)) ≡ v) ↔ (v ≡ 0)
decode-encode-encode_zigzag32 v h =
    rw (decode-encode_zigzag32 (encode_zigzag32 v) (encode_zigzag32-lt v))
      (unfold encode_zigzag32 in ((λ e. ground arith), (λ e. ground arith)))

-- The number of steps from 0, or from -1 for a negative number.
abbrev pub magnitude : ℕ → ℕ
magnitude v = if leb (2 ^ 63) v then 2 ^ 64 - v - 1 else v

pub sign_extend-lt : (v : ℕ) → v < 2 ^ 32 → sign_extend v < 2 ^ 64
unfolding sign_extend
sign_extend-lt v h = ground arith

pub encode_zigzag64-lt : (v : ℕ) → encode_zigzag64 v < 2 ^ 32
unfolding encode_zigzag64
encode_zigzag64-lt v = ground arith

-- For a 64-bit pattern, DecodeZigzag64 undoes EncodeZigzag64, whose result goes through an int32_t,
-- if and only if the magnitude is below 2 ^ 30, or at least 2 ^ 63 - 2 ^ 30.
pub decode-encode_zigzag64 :
    (v : ℕ)
    → v < 2 ^ 64
    → (decode_zigzag64 (sign_extend (encode_zigzag64 v)) ≡ v)
      ↔ ((magnitude v < 2 ^ 30) ⊎ (2 ^ 63 - 2 ^ 30 ≤ magnitude v))
decode-encode_zigzag64 v h =
    rw
      (decode_zigzag64_lem (sign_extend (encode_zigzag64 v))
        (sign_extend-lt (encode_zigzag64 v) (encode_zigzag64-lt v)))
      (unfold encode_zigzag64 sign_extend in ((λ e. ground arith), (λ e. ground arith)))
