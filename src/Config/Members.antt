-- ===== src/Config/Members.antt =====
-- sylar/config.cpp: the names that a document gives.
use server_framework_learnin.Prelude.{
  ℕ, zero, suc, ◌<◌, ◌≡◌, inl, inr, refl, true, false, List, [], ◌∷◌, ◌++◌, map, some, Option-cases,
  Text, ◌==◌, Bool-cases, arith,
}
use server_framework_learnin.Http.{lower}
use server_framework_learnin.Config.{
  Yaml, is_one_of, name_characters, is_valid_name, member_name, each_member, list_all_member,
}

-- The names are valid and without a capital letter.
abbrev pub AllLower : {N : Type 0} → List (Text × N) → Type 0
AllLower [] = Unit {0}
AllLower (n ∷ ns) = (is_valid_name n.0 ≡ true) × (map lower n.0 ≡ n.0) × AllLower ns

module _ {N : Type 0} where
  AllLower-append : (xs ys : List (Text × N)) → AllLower xs → AllLower ys → AllLower (xs ++ ys)
  AllLower-append [] ys a b = b
  AllLower-append (x ∷ xs) ys (v, l, a) b = (v, l, AllLower-append xs ys a b)

is_one_of-fixed : (c : ℕ) (t : Text) → is_one_of c t ≡ true → map lower t ≡ t → lower c ≡ c
unfolding is_one_of
is_one_of-fixed c [] h l = cc
is_one_of-fixed c (x ∷ xs) h l =
    let first : lower x ≡ x = cc in
    let rest : map lower xs ≡ xs = cc in
    elim (Bool-cases (c == x)) [
      | inl e ↦ let same : c ≡ x = ground arith in rw same first
      | inr e ↦ is_one_of-fixed c xs (rw e at h) rest
    ]

name_characters-lower : map lower name_characters ≡ name_characters
unfolding lower
name_characters-lower = refl

pub is_valid_name-lower : (t : Text) → is_valid_name t ≡ true → map lower t ≡ t
unfolding is_valid_name
is_valid_name-lower [] h = refl
is_valid_name-lower (c ∷ t) h = elim (Bool-cases (is_one_of c name_characters)) [
  | inl e ↦
      let first = is_one_of-fixed c name_characters e name_characters-lower in
      let rest = is_valid_name-lower t (rw e at h) in rw (first, rest) refl
  | inr e ↦ let no : false ≡ true = rw e at h in cc
]

module _ {N : Type 0} (yaml : Yaml N) where
  each_member-AllLower :
      (list : Text → N → List (Text × N))
      → ((prefix : Text) (node : N) → AllLower (list prefix node))
      → (prefix : Text) (es : List (Text × N)) → AllLower (each_member list prefix es)
  unfolding each_member
  each_member-AllLower list all prefix [] = tt
  each_member-AllLower list all prefix (e ∷ es) =
      AllLower-append _ _ (all _ e.1) (each_member-AllLower list all prefix es)

  -- All names that ListAllMember lists are valid and are as they were when put into small letters,
  -- so that LoadFromYaml looks each of them up as it is.
  pub list_all_member-AllLower :
      (fuel : ℕ) (prefix : Text) (node : N) → AllLower (list_all_member yaml fuel prefix node)
  unfolding list_all_member
  list_all_member-AllLower zero prefix node = tt
  list_all_member-AllLower (suc fuel) prefix node = elim (Bool-cases (is_valid_name prefix)) [
    | inr bad ↦ rw (list_all_member, bad) tt
    | inl good ↦
        let name = is_valid_name-lower prefix good in
        elim (Option-cases (yaml.entries node)) [
          | inl leaf ↦ rw (list_all_member, good, leaf) (good, name, tt)
          | inr (es, e) ↦
              rw (list_all_member, good, e)
                (
                  good,
                  name,
                  each_member-AllLower (list_all_member yaml fuel) (list_all_member-AllLower fuel)
                      prefix es,
                )
        ]
  ]

  module _ (depth : N → ℕ) where
    -- The nodes below a node are less deep.
    Shallower : ℕ → List (Text × N) → Type 0
    Shallower n [] = Unit {0}
    Shallower n (e ∷ es) = (depth e.1 < n) × Shallower n es

    each_member-same :
        (f g : Text → N → List (Text × N)) (n : ℕ)
        → ((prefix : Text) (node : N) → depth node < n → f prefix node ≡ g prefix node)
        → (prefix : Text) (es : List (Text × N)) → Shallower n es
        → each_member f prefix es ≡ each_member g prefix es
    unfolding each_member Shallower
    each_member-same f g n same prefix [] s = refl
    each_member-same f g n same prefix (e ∷ es) (h, s) =
        rw (same (member_name prefix e.0) e.1 h, each_member-same f g n same prefix es s) refl

    -- More fuel than a document is deep lists all of it: any more gives the same.
    list_all_member-enough :
        ((node : N) (es : List (Text × N))
          → yaml.entries node ≡ some es
          → Shallower (depth node) es)
        → (fuel more : ℕ) (prefix : Text) (node : N) → depth node < fuel
        → depth node < more
        → list_all_member yaml fuel prefix node ≡ list_all_member yaml more prefix node
    unfolding list_all_member
    list_all_member-enough below zero more prefix node h k = absurd (omega arith)
    list_all_member-enough below (suc fuel) zero prefix node h k = absurd (omega arith)
    list_all_member-enough below (suc fuel) (suc more) prefix node h k =
        elim (Option-cases (yaml.entries node)) [
          | inl leaf ↦ rw (list_all_member, leaf) refl
          | inr (es, e) ↦
              let same =
                each_member-same (list_all_member yaml fuel) (list_all_member yaml more)
                  (depth node)
                  (λ p m d.
                    list_all_member-enough below fuel more p m (omega (arith, d, h))
                      (omega (arith, d, k)))
                  prefix es (below node es e) in
              rw (list_all_member, e, same) refl
        ]
