-- ===== src/ByteArray/Stream.antt =====
-- A ByteArray that is read, as the list of the bytes that are left.
use native.Mathlib.Nat.{zero-add, suc-add, sub-zero, suc-sub-suc}
use server_framework_learnin.Prelude.{
  ℕ, zero, suc, ◌+◌, ◌-◌, ◌≤◌, ◌<◌, ◌≡◌, refl, sym, ap, ◌∙◌, List, [], ◌∷◌, true, ltb, length,
  length-take, length-drop, take, drop, done, throws, arith,
}
use server_framework_learnin.ByteArray.{ByteArray, get_read_size}
use server_framework_learnin.ByteArray.Access.{read}
use server_framework_learnin.ByteArray.Codec.{read_fuint8, of_le_bytes}
use server_framework_learnin.ByteArray.Flat.{contents, length-contents}
use server_framework_learnin.ByteArray.Invariant.{Inv}
use server_framework_learnin.ByteArray.Read.{read_lem}

abbrev pub unread : ByteArray → List ℕ
unread b = take (b.size - b.position) (drop b.position (contents b.nodes))

pub length-unread : {b : ByteArray} → Inv b → length (unread b) ≡ b.size - b.position
length-unread {b} v = omega (
  arith,
  length-take (b.size - b.position) (drop b.position (contents b.nodes)),
  length-drop b.position (contents b.nodes),
  length-contents b.base_size b.nodes v.full,
  v.cap,
  v.size_le,
)

module _ {ℓ} {A : Type ℓ} where
  pub take-take_le : (n m : ℕ) (xs : List A) → n ≤ m → take n (take m xs) ≡ take n xs
  take-take_le zero m xs h = refl
  take-take_le (suc n) zero xs h = absurd (omega arith)
  take-take_le (suc n) (suc m) [] h = refl
  take-take_le (suc n) (suc m) (x ∷ xs) h = ap (◌∷◌ x) (take-take_le n m xs (omega arith))

  drop-nil : (n : ℕ) → drop {A = A} n [] ≡ []
  drop-nil zero = refl
  drop-nil (suc n) = refl

  take-nil : (n : ℕ) → [] ≡ take {A = A} n []
  take-nil zero = refl
  take-nil (suc n) = refl

  drop-drop_add : (p n : ℕ) (xs : List A) → drop n (drop p xs) ≡ drop (p + n) xs
  drop-drop_add zero n xs = simp zero-add
  drop-drop_add (suc p) n [] = rw suc-add (drop-nil n)
  drop-drop_add (suc p) n (x ∷ xs) = rw suc-add (drop-drop_add p n xs)

  drop-take_sub : (n m : ℕ) (xs : List A) → drop n (take m xs) ≡ take (m - n) (drop n xs)
  drop-take_sub zero m xs = ap (λ k. take k xs) (sym (sub-zero m))
  drop-take_sub (suc n) zero xs = let z : 0 - suc n ≡ 0 = omega arith in rw z
  drop-take_sub (suc n) (suc m) [] = take-nil (suc m - suc n)
  drop-take_sub (suc n) (suc m) (x ∷ xs) = rw suc-sub-suc (drop-take_sub n m xs)

-- The state after `n` bytes have been read.
pub record Consumed (b b' : ByteArray) (n : ℕ) : Type 0 where
  pub inv : Inv b'
  pub left : unread b' ≡ drop n (unread b)
  pub same_endian : b'.endian ≡ b.endian

-- `read` takes the first bytes of what is left.
pub read-unread :
    (n : ℕ) {b : ByteArray}
    → Inv b
    → 0 < n
    → n ≤ length (unread b)
    → (b' : ByteArray) × (read n b ≡ done (take n (unread b), b')) × Consumed b b' n
read-unread n {b} v s h =
    let few : n ≤ b.size - b.position = omega (arith, length-unread v) in
    let (b', e, m) = read_lem n v s (omega (arith, v.pos_le)) in
    let same : b'.size ≡ b.size = ground (arith, m.new_size) in
    let k : b'.size - b'.position ≡ b.size - b.position - n = omega (arith, m.new_position) in
    (
      b',
      e ∙ ap (λ (t : List ℕ). done (t, b')) (sym (take-take_le n (b.size - b.position) _ few)),
      record {
        inv = m.inv;
        left = cc (
          m.same_nodes,
          m.new_position,
          k,
          drop-take_sub n (b.size - b.position) (drop b.position (contents b.nodes)),
          drop-drop_add b.position n (contents b.nodes),
        );
        same_endian = m.same_endian;
      },
    )

-- In an array with the invariant, `read` of more bytes than are unread throws.
pub read-throws : (n : ℕ) {b : ByteArray} → Inv b → length (unread b) < n → read n b ≡ throws
unfolding read get_read_size
read-throws n {b} v h =
    let short : ltb (b.size - b.position) n ≡ true = ground (arith, length-unread v) in
    rw short refl

pub read_fuint8-unread :
    (x : ℕ) (rest : List ℕ) {b : ByteArray}
    → Inv b
    → unread b ≡ x ∷ rest
    → (b' : ByteArray) × (read_fuint8 b ≡ done (x, b')) × Inv b' × (unread b' ≡ rest)
unfolding read_fuint8 of_le_bytes
read_fuint8-unread x rest {b} v e =
    let (b', f, c) = read-unread 1 v (omega arith) (omega (arith, ap length e)) in
    (b', rw f (rw e (ap (λ (t : ℕ). done (t, b')) (omega arith))), c.inv, c.left ∙ ap (drop 1) e)

pub read_fuint8-throws : {b : ByteArray} → Inv b → unread b ≡ [] → read_fuint8 b ≡ throws
unfolding read_fuint8
read_fuint8-throws v e = rw (read-throws 1 v (omega (arith, ap length e)))
