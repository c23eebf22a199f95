-- ===== src/Http/Methods.antt =====
-- sylar/http/http.cpp: methods and statuses, and the comparison of keys.
use server_framework_learnin.Prelude.{
  ℕ, ◌≡◌, ◌≢◌, ◌⊎◌, inl, inr, refl, sym, ◌∙◌, Bool, true, false, List, [], ◌∷◌, ◌++◌, get_elem?,
  zero, suc, some, Text, codes, same_text, same_text-eq, c_str, ◌==◌, if◌then◌else◌, Bool-cases,
  arith,
}
use server_framework_learnin.Http.{same_letters, same_ignoring_case, case_insensitive_less, lower}
use server_framework_learnin.Http.Names.{
  HttpMethod, delete, get, head, post, put, invalid_method, methods, http_method_to_string,
  starts_with, first_method, string_to_http_method, chars_to_http_method, statuses, phrase_in,
  http_status_to_string,
}

-- The method that is found passes the test, or none does.
first_method_lem :
    (test : HttpMethod → Bool) (ms : List HttpMethod)
    → (test (first_method test ms) ≡ true) ⊎ (first_method test ms ≡ invalid_method)
unfolding first_method
first_method_lem test [] = inr refl
first_method_lem test (m ∷ ms) = elim (Bool-cases (test m)) [
  | inl e ↦ inl (rw e e)
  | inr e ↦ rw e (first_method_lem test ms)
]

string_to_http_method-name :
    (m : HttpMethod) → m ≢ invalid_method → string_to_http_method (http_method_to_string m) ≡ m
unfolding string_to_http_method http_method_to_string c_str same_text first_method
string_to_http_method-name delete n = refl
string_to_http_method-name get n = refl
string_to_http_method-name head n = refl
string_to_http_method-name post n = refl
string_to_http_method-name put n = refl
string_to_http_method-name invalid_method n = absurd (n refl)

-- For a method other than INVALID_METHOD, StringToHttpMethod maps its name to it, and of a text
-- that it maps to it, the part before the first null character is the name.
pub string_to_http_method_lem :
    (t : Text) (m : HttpMethod)
    → m ≢ invalid_method
    → (string_to_http_method (http_method_to_string m) ≡ m)
      × (string_to_http_method t ≡ m → c_str t ≡ http_method_to_string m)
unfolding string_to_http_method
string_to_http_method_lem t m valid = (
  string_to_http_method-name m valid,
  λ e. elim (first_method_lem (λ k. same_text (http_method_to_string k) (c_str t)) methods) [
    | inl h ↦ sym (same_text-eq (http_method_to_string m) (c_str t) (rw e at h))
    | inr h ↦ absurd (valid (sym e ∙ h))
  ],
)

starts_with-split : (a t : Text) → starts_with a t ≡ true → (rest : Text) × (t ≡ a ++ rest)
unfolding starts_with
starts_with-split [] t e = (t, refl)
starts_with-split (x ∷ xs) [] e = cc
starts_with-split (x ∷ xs) (y ∷ ys) e = elim (Bool-cases (x == y)) [
  | inl h ↦
      let same : x ≡ y = ground arith in
      let tails : starts_with xs ys ≡ true = rw h at e in
      let (rest, split) = starts_with-split xs ys tails in (rest, rw (same, split) refl)
  | inr h ↦ let no_more : false ≡ true = rw h at e in cc
]

known :
    (k : HttpMethod)
    → k ≢ invalid_method
    → (rest : Text) → chars_to_http_method (http_method_to_string k ++ rest) ≡ k
unfolding chars_to_http_method http_method_to_string first_method starts_with
known delete n rest = refl
known get n rest = refl
known head n rest = refl
known post n rest = refl
known put n rest = refl
known invalid_method n rest = absurd (n refl)

-- For a method other than INVALID_METHOD, CharsToHttpMethod maps every text that starts with its
-- name to it, whatever follows the name, and no other text.
pub chars_to_http_method_lem :
    (t : Text) (m : HttpMethod)
    → m ≢ invalid_method
    → ((rest : Text) → chars_to_http_method (http_method_to_string m ++ rest) ≡ m)
      × (chars_to_http_method t ≡ m → (rest : Text) × (t ≡ http_method_to_string m ++ rest))
unfolding chars_to_http_method
chars_to_http_method_lem t m valid = (
  (λ rest. known m valid rest),
  λ e. elim (first_method_lem (λ k. starts_with (http_method_to_string k) t) methods) [
    | inl h ↦ starts_with-split (http_method_to_string m) t (rw e at h)
    | inr h ↦ absurd (valid (sym e ∙ h))
  ],
)

-- No status stands twice in a list.
abbrev has_status : ℕ → List (ℕ × Text) → Bool
has_status c [] = false
has_status c (e ∷ es) = let rest = has_status c es in if e.0 == c then true else rest

abbrev distinct : List (ℕ × Text) → Bool
distinct [] = true
distinct (e ∷ es) = let rest = distinct es in if has_status e.0 es then false else rest

has_status-entry :
    (es : List (ℕ × Text)) (i c : ℕ) (t : Text)
    → get_elem? es i ≡ some (c, t)
    → has_status c es ≡ true
has_status-entry [] i c t e = cc
has_status-entry ((d, u) ∷ es) zero c t e =
    let same : d ≡ c = cc in let yes : (d == c) ≡ true = ground (arith, same) in rw yes refl
has_status-entry ((d, u) ∷ es) (suc i) c t e = elim (Bool-cases (d == c)) [
  | inl h ↦ rw h refl
  | inr h ↦ rw (h, has_status-entry es i c t e) refl
]

phrase_in-entry :
    (es : List (ℕ × Text)) (i c : ℕ) (t : Text)
    → distinct es ≡ true
    → get_elem? es i ≡ some (c, t)
    → phrase_in es c ≡ t
unfolding phrase_in
phrase_in-entry [] i c t once e = cc
phrase_in-entry ((d, u) ∷ es) zero c t once e =
    let same : d ≡ c = cc in
    let text : u ≡ t = cc in let yes : (d == c) ≡ true = ground (arith, same) in rw (yes, text) refl
phrase_in-entry ((d, u) ∷ es) (suc i) c t once e = elim (Bool-cases (has_status d es)) [
  | inl twice ↦ let no_more : false ≡ true = rw twice at once in cc
  | inr other ↦ elim (Bool-cases (d == c)) [
    | inl h ↦
        let same : d ≡ c = ground (arith, h) in
        let twice : has_status d es ≡ true = rw same (has_status-entry es i c t e) in cc
    | inr h ↦ rw h (phrase_in-entry es i c t (rw other at once) e)
  ]
]

phrase_in-missing :
    (es : List (ℕ × Text)) (c : ℕ) → has_status c es ≡ false → phrase_in es c ≡ codes "<unknown>"
unfolding phrase_in
phrase_in-missing [] c e = refl
phrase_in-missing ((d, u) ∷ es) c e = elim (Bool-cases (d == c)) [
  | inl h ↦ let no_more : true ≡ false = rw h at e in cc
  | inr h ↦ rw h (phrase_in-missing es c (rw h at e))
]

entry_of_status :
    (es : List (ℕ × Text)) (c : ℕ)
    → has_status c es ≡ true
    → (i : ℕ) × (t : Text) × (get_elem? es i ≡ some (c, t))
entry_of_status [] c e = cc
entry_of_status ((d, u) ∷ es) c e = elim (Bool-cases (d == c)) [
  | inl h ↦ let same : d ≡ c = ground (arith, h) in (zero, u, rw same refl)
  | inr h ↦ let (i, t, at) = entry_of_status es c (rw h at e) in (suc i, t, at)
]

pub http_status_to_string_lem :
    (c : ℕ)
    → ((i : ℕ) (t : Text) → get_elem? statuses i ≡ some (c, t) → http_status_to_string c ≡ t)
      × (((i : ℕ) (t : Text) → get_elem? statuses i ≢ some (c, t))
          → http_status_to_string c ≡ codes "<unknown>")
unfolding http_status_to_string
http_status_to_string_lem c = (
  (λ i t e. phrase_in-entry statuses i c t refl e),
  λ none_is. elim (Bool-cases (has_status c statuses)) [
    | inl h ↦ let (i, t, e) = entry_of_status statuses c h in absurd (none_is i t e)
    | inr h ↦ phrase_in-missing statuses c h
  ],
)

same_letters-sym : (a b : Text) → same_letters a b ≡ same_letters b a
unfolding same_letters
same_letters-sym [] [] = refl
same_letters-sym [] (y ∷ ys) = refl
same_letters-sym (x ∷ xs) [] = refl
same_letters-sym (x ∷ xs) (y ∷ ys) =
    let heads : (lower x == lower y) ≡ (lower y == lower x) = ground arith in
    rw (heads, same_letters-sym xs ys) refl

-- Where CaseInsensitiveLess says that a key is less than another, it also says that the other is
-- less than the first.
pub case_insensitive_less-sym :
    (a b : Text) → case_insensitive_less a b ≡ true → case_insensitive_less b a ≡ true
unfolding case_insensitive_less same_ignoring_case
case_insensitive_less-sym a b e = rw (same_letters-sym (c_str b) (c_str a)) e
