-- ===== src/ServletDispatch/Lookup.antt =====
-- What is found after entries have been added and deleted, and which servlet serves a path.
use server_framework_learnin.Prelude.{
  Text, same_text, same_text_refl, same_text-eq, ◌≡◌, inl, inr, refl, Bool-cases, List, [], ◌∷◌,
  ◌++◌, none, some,
}
use server_framework_learnin.ServletDispatch.{Creator, ServletDispatch, find, erase, assign}

-- Each key stands once.
abbrev pub Once : List (Text × Creator) → Type 0
Once [] = Unit {0}
Once (e ∷ es) = (find e.0 es ≡ none) × Once es

pub record Inv (d : ServletDispatch) : Type 0 where
  pub datas_once : Once d.datas
  pub globs_once : Once d.globs

pub find-assign :
    (uri : Text) (c : Creator) (es : List (Text × Creator)) → find uri (assign uri c es) ≡ some c
unfolding find assign
find-assign uri c [] = rw (same_text_refl uri) refl
find-assign uri c (e ∷ es) = elim (Bool-cases (same_text e.0 uri)) [
  | inl h ↦ rw h (rw h refl)
  | inr h ↦ rw h (rw h (find-assign uri c es))
]

pub find-erase :
    (uri : Text) (es : List (Text × Creator)) → Once es → find uri (erase uri es) ≡ none
unfolding find erase
find-erase uri [] o = refl
find-erase uri (e ∷ es) o = elim (Bool-cases (same_text e.0 uri)) [
  | inl h ↦ let same : e.0 ≡ uri = same_text-eq e.0 uri h in rw h (rw same at o.0)
  | inr h ↦ rw h (rw h (find-erase uri es o.1))
]

find-erase_other :
    (a uri : Text) (es : List (Text × Creator)) → find a es ≡ none → find a (erase uri es) ≡ none
unfolding find erase
find-erase_other a uri [] h = refl
find-erase_other a uri (e ∷ es) h = elim (Bool-cases (same_text e.0 a)) [
  | inl t ↦ let off : some e.1 ≡ none = rw t at h in cc
  | inr t ↦
      let rest : find a es ≡ none = rw t at h in
      elim (Bool-cases (same_text e.0 uri)) [
        | inl u ↦ rw u rest
        | inr u ↦ rw u (rw t (find-erase_other a uri es rest))
      ]
]

pub erase-Once : (uri : Text) (es : List (Text × Creator)) → Once es → Once (erase uri es)
unfolding erase
erase-Once uri [] o = tt
erase-Once uri (e ∷ es) o = elim (Bool-cases (same_text e.0 uri)) [
  | inl h ↦ rw h o.1
  | inr h ↦ rw h (find-erase_other e.0 uri es o.0, erase-Once uri es o.1)
]

pub find-snoc :
    (uri : Text) (c : Creator) (es : List (Text × Creator))
    → find uri es ≡ none
    → find uri (es ++ (uri, c) ∷ []) ≡ some c
unfolding find
find-snoc uri c [] h = rw (same_text_refl uri) refl
find-snoc uri c (e ∷ es) h = elim (Bool-cases (same_text e.0 uri)) [
  | inl t ↦ let off : some e.1 ≡ none = rw t at h in cc
  | inr t ↦ rw t (find-snoc uri c es (rw t at h))
]
