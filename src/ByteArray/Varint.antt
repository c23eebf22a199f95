-- ===== src/ByteArray/Varint.antt =====
-- The variable-length code of unsigned integers: `writeUint32`, `writeUint64` and their readers.
use Prim.Native.Nat.{bit_and, bit_or}
use native.Mathlib.Nat.{pow-suc, mod-eq_of_lt, div-add-mod}
use native.Mathlib.Numerals.{towards_suc}
use server_framework_learnin.Prelude.{
  ℕ, zero, suc, ◌+◌, ◌*◌, ◌/◌, ◌%◌, ◌^◌, ◌≤◌, ◌<◌, ◌≡◌, refl, ap, ◌∙◌, inl, inr, List, [], ◌∷◌,
  ◌++◌, true, false, leb, ltb, if◌then◌else◌, length, Bool-cases, done, throws, arith,
}
use server_framework_learnin.Prelude.Bits.{bit_or_fields, bit_and_seven_bits, set_top_bit}
use server_framework_learnin.ByteArray.{ByteArray}
use server_framework_learnin.ByteArray.Codec.{
  varint_loop, read_uint64_loop, read_uint64, read_uint32_loop, read_uint32,
}
use server_framework_learnin.ByteArray.Invariant.{Inv}
use server_framework_learnin.ByteArray.Stream.{unread, read_fuint8-unread, read_fuint8-throws}

-- The groups of seven bits of a number, lowest first, with the top bit on all but the last.
unfoldable pub varint : ℕ → ℕ → List ℕ
varint zero v = v ∷ []
varint (suc k) v =
    let rest = varint k (v / 128) in if leb 128 v then (v % 128 + 128) ∷ rest else v ∷ []

inner_group : (v : ℕ) → bit_or (bit_and v 0x7f) 0x80 ≡ v % 128 + 128
inner_group v = rw (bit_and_seven_bits v) (set_top_bit (v % 128) (omega arith))

-- With room for `k + 1` bytes, the loop of writeUint32 and writeUint64 ends within the buffer for
-- each number below 128 ^ (k + 1), and stores the seven-bit groups of the number, lowest first,
-- with the top bit on all but the last.
pub varint_loop_lem : (k v : ℕ) → v < 128 ^ suc k → varint_loop (suc k) v ≡ done (varint k v)
unfolding varint_loop varint
varint_loop_lem zero v h = let small : leb 0x80 v ≡ false = ground arith in rw small refl
varint_loop_lem (suc k) v h = elim (Bool-cases (leb 0x80 v)) [
  | inl more ↦
      rw (more, inner_group v, varint_loop_lem k (v / 128) (omega (arith, pow-suc 128 (suc k))))
        refl
  | inr last ↦ rw last refl
]

pub length-varint : (k v : ℕ) → (1 ≤ length (varint k v)) × (length (varint k v) ≤ k + 1)
unfolding varint
length-varint zero v = omega arith
length-varint (suc k) v = ground (arith, length-varint k (v / 128))

-- A number takes `j + 1` bytes at most if it is below 128 ^ (j + 1).
pub length-varint_le : (j k v : ℕ) → v < 128 ^ suc j → length (varint k v) ≤ j + 1
unfolding varint
length-varint_le j zero v h = omega arith
length-varint_le zero (suc k) v h = ground arith
length-varint_le (suc j) (suc k) v h =
    ground (arith, pow-suc 128 (suc j), length-varint_le j k (v / 128))

seven_bits_on : (i : ℕ) → 2 ^ (i + 7) ≡ 128 * 2 ^ i
seven_bits_on i = simp towards_suc (omega arith)

split_group : (v i : ℕ) → v * 2 ^ i ≡ v % 128 * 2 ^ i + v / 128 * 2 ^ (i + 7)
split_group v i =
    let whole = ap (λ (t : ℕ). t * 2 ^ i) (div-add-mod v 128) in
    rw seven_bits_on (omega (arith, whole))

-- One round of a loop adds its group: nothing of it is cut off, and it meets no bit of the result.
add_group :
    (bits result x i : ℕ)
    → result < 2 ^ i
    → x * 2 ^ i < 2 ^ bits
    → bit_or result (x * 2 ^ i % 2 ^ bits) ≡ result + x * 2 ^ i
add_group bits result x i r h = rw (mod-eq_of_lt h) (bit_or_fields i result x r)

group_fits : (g result i : ℕ) → g < 128 → result < 2 ^ i → result + g * 2 ^ i < 2 ^ (i + 7)
group_fits g result i h r = rw seven_bits_on (grind arith)

-- One round on a last byte, and on a byte with the top bit set over the group `g`.
last_round :
    (x rounds i result : ℕ) (rest : List ℕ) {b : ByteArray}
    → Inv b
    → unread b ≡ x ∷ rest
    → x < 128
    → result < 2 ^ i
    → result + x * 2 ^ i < 2 ^ 64
    → (b' : ByteArray) × (read_uint64_loop (suc rounds) i result b ≡ done (result + x * 2 ^ i, b'))
      × Inv b'
      × (unread b' ≡ rest)
unfolding read_uint64_loop
last_round x rounds i result rest {b} w e h r f =
    let (b', q, w', u) = read_fuint8-unread x rest w e in
    let last : ltb x 0x80 ≡ true = ground arith in
    (b', rw (q, last, add_group 64 result x i r (omega (arith, f))) refl, w', u)

inner_round :
    (g rounds i result : ℕ) (rest : List ℕ) {b : ByteArray}
    → Inv b
    → unread b ≡ (g + 128) ∷ rest
    → g < 128
    → result < 2 ^ i
    → result + g * 2 ^ i < 2 ^ 64
    → (b' : ByteArray) × (read_uint64_loop (suc rounds) i result b
        ≡ read_uint64_loop rounds (i + 7) (result + g * 2 ^ i) b')
      × Inv b'
      × (unread b' ≡ rest)
unfolding read_uint64_loop
inner_round g rounds i result rest {b} w e h r f =
    let (b', q, w', u) = read_fuint8-unread (g + 128) rest w e in
    let more : ltb (g + 128) 0x80 ≡ false = ground arith in
    let low : bit_and (g + 128) 0x7f ≡ g = bit_and_seven_bits (g + 128) ∙ omega arith in
    (b', rw (q, more, low, add_group 64 result g i r (omega (arith, f))) refl, w', u)

-- Reading a code at bit `i`, whatever follows it.
read_uint64_loop-varint :
    (k rounds i result v : ℕ) (rest : List ℕ) {b : ByteArray}
    → Inv b
    → unread b ≡ varint k v ++ rest
    → v < 128 ^ suc k
    → k < rounds
    → result < 2 ^ i
    → result + v * 2 ^ i < 2 ^ 64
    → (b' : ByteArray) × (read_uint64_loop rounds i result b ≡ done (result + v * 2 ^ i, b'))
      × Inv b'
      × (unread b' ≡ rest)
unfolding varint
read_uint64_loop-varint k zero i result v rest w e h m r f = absurd (omega arith)
read_uint64_loop-varint zero (suc rounds) i result v rest w e h m r f =
    last_round v rounds i result rest w e (omega arith) r f
read_uint64_loop-varint (suc k) (suc rounds) i result v rest {b} w e h m r f =
    elim (Bool-cases (leb 128 v)) [
      | inl more ↦
          let split = split_group v i in
          let (b₁, e₁, w₁, u₁) =
            inner_round (v % 128) rounds i result (varint k (v / 128) ++ rest) w (rw more at e)
              (omega arith) r (omega (arith, split)) in
          let (b₂, e₂, w₂, u₂) =
            read_uint64_loop-varint k rounds (i + 7) (result + v % 128 * 2 ^ i) (v / 128) rest w₁ u₁
              (omega (arith, pow-suc 128 (suc k))) (omega arith)
              (group_fits (v % 128) result i (omega arith) r) (omega (arith, split)) in
          (b₂, e₁ ∙ e₂ ∙ ap (λ (t : ℕ). done (t, b₂)) (omega (arith, split)), w₂, u₂)
      | inr last ↦ last_round v rounds i result rest w (rw last at e) (ground arith) r f
    ]

-- Where the unread bytes of an array with the invariant start with the seven-bit groups of a number
-- below 2 ^ 64, readUint64 returns that number, keeps the invariant, and leaves exactly the bytes
-- behind the code unread.
pub read_uint64-varint :
    (v : ℕ) (rest : List ℕ) {b : ByteArray}
    → Inv b
    → v < 2 ^ 64
    → unread b ≡ varint 9 v ++ rest
    → (b' : ByteArray) × (read_uint64 b ≡ done (v, b')) × Inv b' × (unread b' ≡ rest)
unfolding read_uint64
read_uint64-varint v rest w h e =
    let (b', q, w', u) =
      read_uint64_loop-varint 9 10 0 0 v rest w e (omega arith) (omega arith) (omega arith)
        (omega arith) in
    (b', q ∙ ap (λ (t : ℕ). done (t, b')) (omega arith), w', u)

-- `readUint32` takes five bytes, whatever they are: with fewer left it throws.
read_uint32_loop-throws :
    (rounds i result : ℕ) (xs : List ℕ) {b : ByteArray}
    → Inv b
    → unread b ≡ xs
    → length xs < rounds
    → read_uint32_loop rounds i result b ≡ throws
unfolding read_uint32_loop
read_uint32_loop-throws zero i result xs w e h = absurd (omega arith)
read_uint32_loop-throws (suc rounds) i result [] w e h = rw (read_fuint8-throws w e)
read_uint32_loop-throws (suc rounds) i result (x ∷ xs) w e h =
    let (b', q, w', u) = read_fuint8-unread x xs w e in
    rw q (read_uint32_loop-throws rounds (i + 7) _ xs w' u (omega arith))

pub read_uint32-throws : {b : ByteArray} → Inv b → length (unread b) < 5 → read_uint32 b ≡ throws
unfolding read_uint32
read_uint32-throws {b} w h = read_uint32_loop-throws 5 0 0 (unread b) w refl h
