-- ===== src/ServletDispatch/Runs.antt =====
-- The dispatch with one path and one pattern, at the theorems' statements.
use server_framework_learnin.Prelude.{Text, ℕ, ◌+◌, ◌≡◌, ◌⊎◌, refl, Bool, true, [], ◌∷◌, none, some}
use server_framework_learnin.ServletDispatch.{
  Creator, hold, ServletDispatch, get, find, get_matched_servlet,
}
use server_framework_learnin.ServletDispatch.Lookup.{Inv}
use server_framework_learnin.ServletDispatch.Serve.{NoMatch, FirstMatch, get_matched_servlet_lem}

-- A pattern that matches every text, whatever it is, and creators that make the servlet after theirs.
abbrev any_match : Text → Text → Bool
any_match p t = true

abbrev next : ℕ → ℕ
next n = n + 1

-- The servlet 3 at the path 47 97, and the servlet 4 at the pattern 47 42.
abbrev one_each : ServletDispatch
one_each = record {
  datas = (47 ∷ 97 ∷ [], hold 3) ∷ [];
  globs = (47 ∷ 42 ∷ [], hold 4) ∷ [];
  default = 0;
}

one_each-Inv : Inv one_each
unfolding find
one_each-Inv = record { datas_once = (refl, tt); globs_once = (refl, tt) }

get_matched_servlet_lem_example :
    ((c : Creator) × (find (47 ∷ 99 ∷ []) one_each.datas ≡ some c)
      × (get_matched_servlet next any_match (47 ∷ 99 ∷ []) one_each ≡ get next c))
    ⊎ ((find (47 ∷ 99 ∷ []) one_each.datas ≡ none)
        × (((c : Creator) × FirstMatch next any_match (47 ∷ 99 ∷ []) one_each.globs c
              × (get_matched_servlet next any_match (47 ∷ 99 ∷ []) one_each ≡ get next c))
            ⊎ (NoMatch next any_match (47 ∷ 99 ∷ []) one_each.globs
                × (get_matched_servlet next any_match (47 ∷ 99 ∷ []) one_each ≡ 0))))
get_matched_servlet_lem_example = get_matched_servlet_lem next any_match (47 ∷ 99 ∷ []) one_each
