-- ===== src/Uri/Number.antt =====
-- sylar/uri.cpp: numbers that are printed and read back.
use server_framework_learnin.Prelude.{
  ℕ, zero, suc, ◌+◌, ◌-◌, ◌*◌, ◌/◌, ◌%◌, ◌^◌, ◌≤◌, ◌<◌, ◌≡◌, refl, ap, ◌∙◌, true, false, [], ◌∷◌,
  length, Text, leb, ltb, ◌==◌, Bool-cases, inl, inr, done, arith,
}
use server_framework_learnin.Http.{digits_before, decimal}
use server_framework_learnin.Uri.{is_digit, leading_digits, number_from, to_int, is_space, stoi}

abbrev Digits : Text → Type 0
Digits [] = Unit {0}
Digits (c ∷ t) = (48 ≤ c) × (c ≤ 57) × Digits t

digits_before-Digits : (fuel n : ℕ) (t : Text) → Digits t → Digits (digits_before fuel n t)
unfolding digits_before
digits_before-Digits zero n t d = d
digits_before-Digits (suc fuel) n t d = elim (Bool-cases (ltb n 10)) [
  | inl e ↦ let small : n < 10 = ground (arith, e) in rw e (omega arith, omega (arith, small), d)
  | inr e ↦
      rw e (digits_before-Digits fuel (n / 10) ((48 + n % 10) ∷ t) (omega arith, omega arith, d))
]

number_from-digits_before :
    (fuel n : ℕ) (t : Text) → n < fuel → number_from 0 (digits_before fuel n t) ≡ number_from n t
unfolding digits_before number_from
number_from-digits_before zero n t h = absurd (omega arith)
number_from-digits_before (suc fuel) n t h = elim (Bool-cases (ltb n 10)) [
  | inl e ↦
      let same : 0 * 10 + (48 + n - 48) ≡ n = omega arith in
      rw e (ap (λ (m : ℕ). number_from m t) same)
  | inr e ↦
      let big : 10 ≤ n = ground (arith, e) in
      let same : n / 10 * 10 + (48 + n % 10 - 48) ≡ n = omega arith in
      rw e (
        number_from-digits_before fuel (n / 10) ((48 + n % 10) ∷ t) (omega (arith, big, h))
        ∙ ap (λ (m : ℕ). number_from m t) same)
]

leading_digits-Digits : (t : Text) → Digits t → leading_digits t ≡ t
unfolding leading_digits is_digit
leading_digits-Digits [] d = refl
leading_digits-Digits (c ∷ t) d =
    let low : leb 48 c ≡ true = ground (arith, d.0) in
    let high : leb c 57 ≡ true = ground (arith, d.1) in
    rw (low, high, leading_digits-Digits t d.2) refl

-- A text of digits is read as their number.
stoi-Digits :
    (c : ℕ) (t : Text)
    → Digits (c ∷ t)
    → number_from 0 (c ∷ t) < 2 ^ 31
    → stoi (c ∷ t) ≡ done (number_from 0 (c ∷ t))
unfolding stoi is_space to_int
stoi-Digits c t d h =
    let some_low : (c == 32) ≡ false = ground (arith, d.0) in
    let at_low : leb c 13 ≡ false = ground (arith, d.0) in
    let no_minus : (c == 45) ≡ false = ground (arith, d.0) in
    let no_plus : (c == 43) ≡ false = ground (arith, d.0) in
    let above : leb 9 c ≡ true = ground (arith, d.0) in
    let fits : ltb (number_from 0 (c ∷ t)) (2 ^ 31) ≡ true = ground (arith, h) in
    rw (some_low, above, at_low, no_minus, no_plus, leading_digits-Digits (c ∷ t) d, fits) refl

read_digits_lem :
    (t : Text) (n : ℕ)
    → Digits t
    → number_from 0 t ≡ n
    → 0 < length t
    → n < 2 ^ 31
    → stoi t ≡ done n
read_digits_lem [] n d e p h = absurd (omega (arith, p))
read_digits_lem (c ∷ t) n d e p h = stoi-Digits c t d (rw e h) ∙ ap done e

length-digits_before : (fuel n : ℕ) (t : Text) → length t ≤ length (digits_before fuel n t)
unfolding digits_before
length-digits_before zero n t = omega arith
length-digits_before (suc fuel) n t = elim (Bool-cases (ltb n 10)) [
  | inl e ↦ rw e (omega arith)
  | inr e ↦ rw e (omega (arith, length-digits_before fuel (n / 10) ((48 + n % 10) ∷ t)))
]

some_digit : (n : ℕ) → 0 < length (digits_before (suc n) n [])
unfolding digits_before
some_digit n = elim (Bool-cases (ltb n 10)) [
  | inl e ↦ rw e (omega arith)
  | inr e ↦ rw e (omega (arith, length-digits_before n (n / 10) ((48 + n % 10) ∷ [])))
]

pub stoi-decimal : (n : ℕ) → n < 2 ^ 31 → stoi (decimal n) ≡ done n
unfolding decimal number_from
stoi-decimal n h =
    read_digits_lem (digits_before (suc n) n []) n (digits_before-Digits (suc n) n [] tt)
      (number_from-digits_before (suc n) n [] (omega arith)) (some_digit n) h
