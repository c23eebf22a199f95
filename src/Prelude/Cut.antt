-- ===== src/Prelude/Cut.antt =====
-- Cutting a list in two, where it is known to start with another.
use Prim.Native.Nat.{ℕ, zero, suc, ◌+◌, ◌-◌, ◌≤◌}
use mathlib.Core.Path.{◌≡◌, refl, ap}
use mathlib.Core.List.{List, [], ◌∷◌, ◌++◌}
use native.Mathlib.Omega.{arith}
use native.Mathlib.Nat.{zero-add, suc-add}
use server_framework_learnin.Prelude.Lists.{length, take, drop}

module _ {ℓ} {A : Type ℓ} where
  pub take-past :
      (d e : List A) (n : ℕ) → length d ≤ n → take n (d ++ e) ≡ d ++ take (n - length d) e
  take-past [] e n h = let same : n - 0 ≡ n = omega arith in rw same refl
  take-past (x ∷ d) e (suc n) h =
      let same : suc n - suc (length d) ≡ n - length d = omega arith in
      rw same (ap (◌∷◌ x) (take-past d e n (omega arith)))
  take-past (x ∷ d) e zero h = absurd (omega arith)

  pub drop-past : (d e : List A) (n : ℕ) → length d ≤ n → drop n (d ++ e) ≡ drop (n - length d) e
  drop-past [] e n h = let same : n - 0 ≡ n = omega arith in rw same refl
  drop-past (x ∷ d) e (suc n) h =
      let same : suc n - suc (length d) ≡ n - length d = omega arith in
      rw same (drop-past d e n (omega arith))
  drop-past (x ∷ d) e zero h = absurd (omega arith)

  pub drop-twice : (p n : ℕ) (xs : List A) → drop n (drop p xs) ≡ drop (p + n) xs
  drop-twice zero n xs = rw zero-add refl
  drop-twice (suc p) zero [] = rw suc-add refl
  drop-twice (suc p) (suc n) [] = rw suc-add refl
  drop-twice (suc p) n (x ∷ xs) = rw suc-add (drop-twice p n xs)

  pub take-all : (xs ys : List A) → take (length xs) (xs ++ ys) ≡ xs
  take-all [] ys = refl
  take-all (x ∷ xs) ys = ap (◌∷◌ x) (take-all xs ys)

  pub drop-all : (xs ys : List A) → drop (length xs) (xs ++ ys) ≡ ys
  drop-all [] ys = refl
  drop-all (x ∷ xs) ys = drop-all xs ys
