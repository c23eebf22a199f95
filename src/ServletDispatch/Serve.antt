-- ===== src/ServletDispatch/Serve.antt =====
-- The operations of the dispatch: what they keep, and which servlet serves a path after them.
use server_framework_learnin.Prelude.{
  same_text_refl, same_text-eq, Text, same_text, ℕ, ◌≡◌, ◌⊎◌, inl, inr, refl, ap, Bool, true, false,
  Bool-cases, Option-cases, List, [], ◌∷◌, ◌++◌, none, some,
}
use server_framework_learnin.ServletDispatch.{
  Creator, hold, ServletDispatch, get, find, erase, assign, find_glob, made, add_servlet,
  add_glob_servlet, del_servlet, del_glob_servlet, get_servlet, get_glob_servlet,
  get_matched_servlet,
}
use server_framework_learnin.ServletDispatch.Lookup.{
  Once, Inv, find-assign, find-erase, erase-Once, find-snoc,
}

same_text-sym : (a b : Text) → same_text a b ≡ false → same_text b a ≡ false
same_text-sym a b h = elim (Bool-cases (same_text b a)) [
  | inl t ↦
      let same : b ≡ a = same_text-eq b a t in
      let off : same_text a a ≡ false = rw same at h in let on = same_text_refl a in cc
  | inr f ↦ f
]

-- A key that is found nowhere is not found behind a new entry of another key.
find-snoc_other :
    (a uri : Text) (c : Creator) (es : List (Text × Creator))
    → find a es ≡ none
    → same_text uri a ≡ false
    → find a (es ++ (uri, c) ∷ []) ≡ none
unfolding find
find-snoc_other a uri c [] h n = rw n refl
find-snoc_other a uri c (e ∷ es) h n = elim (Bool-cases (same_text e.0 a)) [
  | inl t ↦ let off : some e.1 ≡ none = rw t at h in cc
  | inr t ↦ rw t (find-snoc_other a uri c es (rw t at h) n)
]

find-assign_other :
    (a uri : Text) (c : Creator) (es : List (Text × Creator))
    → find a es ≡ none
    → same_text uri a ≡ false
    → find a (assign uri c es) ≡ none
unfolding find assign
find-assign_other a uri c [] h n = rw n refl
find-assign_other a uri c (e ∷ es) h n = elim (Bool-cases (same_text e.0 a)) [
  | inl t ↦ let off : some e.1 ≡ none = rw t at h in cc
  | inr t ↦
      let rest : find a es ≡ none = rw t at h in
      elim (Bool-cases (same_text e.0 uri)) [
        | inl u ↦ rw u (rw t rest)
        | inr u ↦ rw u (rw t (find-assign_other a uri c es rest n))
      ]
]

snoc-Once :
    (uri : Text) (c : Creator) (es : List (Text × Creator))
    → Once es
    → find uri es ≡ none
    → Once (es ++ (uri, c) ∷ [])
unfolding find
snoc-Once uri c [] o h = (refl, tt)
snoc-Once uri c (e ∷ es) o h = elim (Bool-cases (same_text e.0 uri)) [
  | inl t ↦ let off : some e.1 ≡ none = rw t at h in cc
  | inr t ↦ (
    find-snoc_other e.0 uri c es o.0 (same_text-sym e.0 uri t),
    snoc-Once uri c es o.1 (rw t at h),
  )
]

assign-Once :
    (uri : Text) (c : Creator) (es : List (Text × Creator)) → Once es → Once (assign uri c es)
unfolding assign find
assign-Once uri c [] o = (refl, tt)
assign-Once uri c (e ∷ es) o = elim (Bool-cases (same_text e.0 uri)) [
  | inl t ↦ rw t o
  | inr t ↦
      rw t (find-assign_other e.0 uri c es o.0 (same_text-sym e.0 uri t), assign-Once uri c es o.1)
]

module _ (make : ℕ → ℕ) (fnmatch : Text → Text → Bool) where
  -- In a dispatch where each key stands once, addServlet keeps that, and the path is then served by
  -- the servlet, for any fnmatch, and getServlet returns it.
  pub add_servlet_lem :
      (uri : Text) (servlet : ℕ) {d : ServletDispatch}
      → Inv d
      → Inv (add_servlet uri servlet d)
        × (get_matched_servlet make fnmatch uri (add_servlet uri servlet d) ≡ servlet)
        × (get_servlet make uri (add_servlet uri servlet d) ≡ some servlet)
  unfolding add_servlet get_matched_servlet get_servlet made get
  add_servlet_lem uri servlet {d} v =
      let e = find-assign uri (hold servlet) d.datas in
      (
        record {
          datas_once = assign-Once uri (hold servlet) d.datas v.datas_once;
          globs_once = v.globs_once;
        },
        rw (get_matched_servlet, e) refl,
        rw e refl,
      )

  pub add_glob_servlet_lem :
      (uri : Text) (servlet : ℕ) {d : ServletDispatch}
      → Inv d
      → Inv (add_glob_servlet uri servlet d)
        × (get_glob_servlet make uri (add_glob_servlet uri servlet d) ≡ some servlet)
  unfolding add_glob_servlet get_glob_servlet made get
  add_glob_servlet_lem uri servlet {d} v =
      let gone = find-erase uri d.globs v.globs_once in
      let e = find-snoc uri (hold servlet) (erase uri d.globs) gone in
      (
        record {
          datas_once = v.datas_once;
          globs_once =
              snoc-Once uri (hold servlet) (erase uri d.globs) (erase-Once uri d.globs v.globs_once)
                gone;
        },
        rw e refl,
      )

  -- In a dispatch where each key stands once, delServlet and then delGlobServlet of a text keep
  -- that, and getServlet and getGlobServlet of the text then find nothing.
  pub del_servlet_lem :
      (uri : Text) {d : ServletDispatch}
      → Inv d
      → Inv (del_glob_servlet uri (del_servlet uri d))
        × (get_servlet make uri (del_glob_servlet uri (del_servlet uri d)) ≡ none)
        × (get_glob_servlet make uri (del_glob_servlet uri (del_servlet uri d)) ≡ none)
  unfolding del_servlet del_glob_servlet get_servlet get_glob_servlet made
  del_servlet_lem uri {d} v = (
    record {
      datas_once = erase-Once uri d.datas v.datas_once;
      globs_once = erase-Once uri d.globs v.globs_once;
    },
    rw (find-erase uri d.datas v.datas_once) refl,
    rw (find-erase uri d.globs v.globs_once) refl,
  )

  -- No pattern matches.
  abbrev pub NoMatch : Text → List (Text × Creator) → Type 0
  NoMatch uri [] = Unit {0}
  NoMatch uri (e ∷ es) = (fnmatch e.0 uri ≡ false) × NoMatch uri es

  -- The first of the globs that matches.
  abbrev pub FirstMatch : Text → List (Text × Creator) → Creator → Type 0
  FirstMatch uri es c =
      (before : List (Text × Creator)) × (pattern_text : Text) × (after : List (Text × Creator))
      × (es ≡ before ++ (pattern_text, c) ∷ after)
      × (fnmatch pattern_text uri ≡ true)
      × NoMatch uri before

  find_glob_lem :
      (uri : Text) (es : List (Text × Creator))
      → ((find_glob fnmatch uri es ≡ none) × NoMatch uri es)
        ⊎ ((c : Creator) × (find_glob fnmatch uri es ≡ some c) × FirstMatch uri es c)
  unfolding find_glob
  find_glob_lem uri [] = inl (refl, tt)
  find_glob_lem uri (e ∷ es) = elim (Bool-cases (fnmatch e.0 uri)) [
    | inl t ↦ inr (e.1, rw t refl, ([], e.0, es, refl, t, tt))
    | inr t ↦ elim (find_glob_lem uri es) [
      | inl (n, no_match) ↦ inl (rw t n, (t, no_match))
      | inr (c, found, (before, text, after, split, hit, no_match)) ↦ inr (
        c,
        rw t found,
        (
          e ∷ before,
          text,
          after,
          ap (λ (l : List (Text × Creator)). e ∷ l) split,
          hit,
          (t, no_match),
        ),
      )
    ]
  ]

  -- For any fnmatch, getMatchedServlet returns the servlet of the entry for the path itself if
  -- there is one; else that of a glob whose pattern matches and before which no pattern does; else,
  -- where no pattern matches, the default.
  pub get_matched_servlet_lem :
      (uri : Text) (d : ServletDispatch)
      → ((c : Creator) × (find uri d.datas ≡ some c)
          × (get_matched_servlet make fnmatch uri d ≡ get make c))
        ⊎ ((find uri d.datas ≡ none)
            × (((c : Creator) × FirstMatch uri d.globs c
                  × (get_matched_servlet make fnmatch uri d ≡ get make c))
                ⊎ (NoMatch uri d.globs × (get_matched_servlet make fnmatch uri d ≡ d.default))))
  unfolding get_matched_servlet
  get_matched_servlet_lem uri d = elim (Option-cases (find uri d.datas)) [
    | inr (c, e) ↦ inl (c, e, rw (get_matched_servlet, e) refl)
    | inl e ↦ elim (find_glob_lem uri d.globs) [
      | inl (n, no_match) ↦ inr (e, inr (no_match, rw (get_matched_servlet, e, n) refl))
      | inr (c, found, first) ↦ inr (e, inl (c, first, rw (get_matched_servlet, e, found) refl))
    ]
  ]
