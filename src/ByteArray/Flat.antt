-- ===== src/ByteArray/Flat.antt =====
-- The bytes of a node list in one row, and what copying and cutting do to them.
use mathlib.Core.List.{append_assoc}
use native.Mathlib.Nat.{zero-add, add-zero, suc-add}
use server_framework_learnin.Prelude.{
  ℕ, zero, suc, ◌+◌, ◌*◌, ◌≤◌, ◌≡◌, refl, ap, List, [], ◌∷◌, ◌++◌, length, length-append, take,
  drop, arith,
}
use server_framework_learnin.ByteArray.{Node, Memory, load, copy_into}

abbrev pub contents : List Node → List ℕ
contents [] = []
contents (n ∷ ns) = n ++ contents ns

-- Every node has `base` bytes.
abbrev pub Full : ℕ → List Node → Type 0
Full base [] = Unit {0}
Full base (n ∷ ns) = (length n ≡ base) × Full base ns

pub length-contents :
    (base : ℕ) (ns : List Node) → Full base ns → length (contents ns) ≡ base * length ns
length-contents base [] h = omega arith
length-contents base (n ∷ ns) h =
    omega (arith, length-append n (contents ns), length-contents base ns h.1)

pub contents-append : (xs ys : List Node) → contents (xs ++ ys) ≡ contents xs ++ contents ys
contents-append [] ys = refl
contents-append (x ∷ xs) ys = simp (contents-append xs ys, append_assoc)

pub Full-append :
    (base : ℕ) (xs ys : List Node) → Full base xs → Full base ys → Full base (xs ++ ys)
Full-append base [] ys h k = k
Full-append base (x ∷ xs) ys h k = (h.0, Full-append base xs ys h.1 k)

pub Full-take : (base n : ℕ) (xs : List Node) → Full base xs → Full base (take n xs)
Full-take base zero xs h = tt
Full-take base (suc n) [] h = tt
Full-take base (suc n) (x ∷ xs) h = (h.0, Full-take base n xs h.1)

pub Full-drop : (base n : ℕ) (xs : List Node) → Full base xs → Full base (drop n xs)
Full-drop base zero xs h = h
Full-drop base (suc n) [] h = tt
Full-drop base (suc n) (x ∷ xs) h = Full-drop base n xs h.1

pub length-load : (mem : Memory) (i n : ℕ) → length (load mem i n) ≡ n
unfolding load
length-load mem i zero = refl
length-load mem i (suc n) = ap suc (length-load mem (i + 1) n)

pub load-append :
    (mem : Memory) (i m n : ℕ) → load mem i (m + n) ≡ load mem i m ++ load mem (i + m) n
unfolding load
load-append mem i zero n = simp (zero-add, add-zero)
load-append mem i (suc m) n =
    let e : i + suc m ≡ i + 1 + m = omega arith in
    rw (suc-add, e) (ap (◌∷◌ (mem i)) (load-append mem (i + 1) m n))

pub length-copy_into : (xs : List ℕ) (at : ℕ) (d : List ℕ) → length (copy_into xs at d) ≡ length xs
unfolding copy_into
length-copy_into [] at d = refl
length-copy_into (x ∷ xs) (suc at) d = ap suc (length-copy_into xs at d)
length-copy_into (x ∷ xs) zero [] = refl
length-copy_into (x ∷ xs) zero (b ∷ d) = ap suc (length-copy_into xs zero d)

copy_into-nil : (xs : List ℕ) (at : ℕ) → copy_into xs at [] ≡ xs
unfolding copy_into
copy_into-nil [] at = refl
copy_into-nil (x ∷ xs) zero = refl
copy_into-nil (x ∷ xs) (suc at) = ap (◌∷◌ x) (copy_into-nil xs at)

-- A copy that ends inside the first list.
pub copy_into-append_left :
    (xs ys : List ℕ) (at : ℕ) (d : List ℕ)
    → at + length d ≤ length xs
    → copy_into (xs ++ ys) at d ≡ copy_into xs at d ++ ys
unfolding copy_into
copy_into-append_left [] ys at [] h = copy_into-nil ys at
copy_into-append_left [] ys at (b ∷ d) h = absurd (omega arith)
copy_into-append_left (x ∷ xs) ys (suc at) d h =
    ap (◌∷◌ x) (copy_into-append_left xs ys at d (omega arith))
copy_into-append_left (x ∷ xs) ys zero [] h = refl
copy_into-append_left (x ∷ xs) ys zero (b ∷ d) h =
    ap (◌∷◌ b) (copy_into-append_left xs ys zero d (omega arith))

-- A copy that begins in the second list.
pub copy_into-append_right :
    (xs ys : List ℕ) (at : ℕ) (d : List ℕ)
    → copy_into (xs ++ ys) (length xs + at) d ≡ xs ++ copy_into ys at d
unfolding copy_into
copy_into-append_right [] ys at d = simp zero-add
copy_into-append_right (x ∷ xs) ys at d =
    rw suc-add (ap (◌∷◌ x) (copy_into-append_right xs ys at d))

-- A copy whose first part fills the first list.
pub copy_into-append_both :
    (xs ys : List ℕ) (at : ℕ) (d e : List ℕ)
    → at + length d ≡ length xs
    → copy_into (xs ++ ys) at (d ++ e) ≡ copy_into xs at d ++ copy_into ys 0 e
unfolding copy_into
copy_into-append_both [] ys zero [] e h = refl
copy_into-append_both [] ys (suc at) [] e h = absurd (omega arith)
copy_into-append_both [] ys at (b ∷ d) e h = absurd (omega arith)
copy_into-append_both (x ∷ xs) ys (suc at) d e h =
    ap (◌∷◌ x) (copy_into-append_both xs ys at d e (omega arith))
copy_into-append_both (x ∷ xs) ys zero [] e h = absurd (omega arith)
copy_into-append_both (x ∷ xs) ys zero (b ∷ d) e h =
    ap (◌∷◌ b) (copy_into-append_both xs ys zero d e (omega arith))

-- Reading back what was copied.
pub take-drop-copy_into :
    (xs : List ℕ) (at : ℕ) (d : List ℕ)
    → at + length d ≤ length xs
    → take (length d) (drop at (copy_into xs at d)) ≡ d
unfolding copy_into
take-drop-copy_into [] at [] h = refl
take-drop-copy_into [] at (b ∷ d) h = absurd (omega arith)
take-drop-copy_into (x ∷ xs) (suc at) d h = take-drop-copy_into xs at d (omega arith)
take-drop-copy_into (x ∷ xs) zero [] h = refl
take-drop-copy_into (x ∷ xs) zero (b ∷ d) h =
    ap (◌∷◌ b) (take-drop-copy_into xs zero d (omega arith))

-- Cutting a row in two.
pub cut_left :
    (xs ys : List ℕ) (at n : ℕ)
    → at + n ≤ length xs
    → take n (drop at (xs ++ ys)) ≡ take n (drop at xs)
cut_left xs ys at zero h = refl
cut_left [] ys at (suc n) h = absurd (omega arith)
cut_left (x ∷ xs) ys zero (suc n) h = ap (◌∷◌ x) (cut_left xs ys zero n (omega arith))
cut_left (x ∷ xs) ys (suc at) (suc n) h = cut_left xs ys at (suc n) (omega arith)

pub cut_both :
    (xs ys : List ℕ) (at m n : ℕ)
    → at + m ≡ length xs
    → take (m + n) (drop at (xs ++ ys)) ≡ take m (drop at xs) ++ take n ys
cut_both [] ys zero zero n h = simp zero-add
cut_both [] ys (suc at) m n h = absurd (omega arith)
cut_both [] ys at (suc m) n h = absurd (omega arith)
cut_both (x ∷ xs) ys (suc at) m n h = cut_both xs ys at m n (omega arith)
cut_both (x ∷ xs) ys zero zero n h = absurd (omega arith)
cut_both (x ∷ xs) ys zero (suc m) n h =
    rw suc-add (ap (◌∷◌ x) (cut_both xs ys zero m n (omega arith)))
