-- ===== src/Prelude/Outcomes.antt =====
-- What a C++ call does: it returns, it throws, or it runs into undefined behaviour, such as a load
-- through a null pointer. The last two end the chain of steps that they stand in.
use mathlib.Core.Path.{◌≡◌, refl}

pub data Outcome {ℓ} (A : Type ℓ) : Type ℓ where
  done : A → Outcome A
  throws : Outcome A
  fault : Outcome A

infixl 5 ◌>>=◌ ◌>>◌
abbrev pub ◌>>=◌ {ℓ κ} : {A : Type ℓ} {B : Type κ} → Outcome A → (A → Outcome B) → Outcome B
done a >>= f = f a
throws >>= f = throws
fault >>= f = fault

abbrev pub ◌>>◌ {ℓ} : {B : Type ℓ} → Outcome (Unit {0}) → Outcome B → Outcome B
m >> k = m >>= λ _. k

-- Inversion of a chain that returned.
pub >>=-eq-done {ℓ κ} :
    {A : Type ℓ} {B : Type κ} (m : Outcome A) (f : A → Outcome B) {b : B}
    → (m >>= f) ≡ done b
    → (a : A) × (m ≡ done a) × (f a ≡ done b)
>>=-eq-done (done a) f h = (a, refl, h)
>>=-eq-done throws f h = cc
>>=-eq-done fault f h = cc

-- A chain whose first steps are known to return, up to the last one.
pub >>=-then {ℓ κ μ} :
    {A : Type ℓ} {B : Type κ} {C : Type μ} (m : Outcome A) (f : A → Outcome B) (g : B → Outcome C)
    {b : B} {r : Outcome C}
    → (m >>= f) ≡ done b
    → g b ≡ r
    → (m >>= λ a. f a >>= g) ≡ r
>>=-then (done a) f g {b} e h = rw e h
>>=-then throws f g e h = cc
>>=-then fault f g e h = cc

pub >>=-then_two {ℓ κ μ ν} :
    {A : Type ℓ} {B : Type κ} {C : Type μ} {D : Type ν} (m : Outcome A) (f : A → Outcome B)
    (g : B → Outcome C) (k : C → Outcome D) {c : C} {r : Outcome D}
    → (m >>= λ a. f a >>= g) ≡ done c
    → k c ≡ r
    → (m >>= λ a. f a >>= λ b. g b >>= k) ≡ r
>>=-then_two (done a) f g k e h = >>=-then (f a) g k e h
>>=-then_two throws f g k e h = cc
>>=-then_two fault f g k e h = cc
