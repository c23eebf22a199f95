-- ===== src/Config/Table.antt =====
-- sylar/config.h and sylar/config.cpp: the table of the variables.
use server_framework_learnin.Prelude.{
  ℕ, zero, suc, ◌≡◌, inl, inr, refl, ◌∙◌, Bool, true, false, ◌&&◌, List, [], ◌∷◌, ◌++◌, Option,
  none, some, Option-cases, Text, same_text, same_text_refl, same_text-eq, length, get_elem?,
  if◌then◌else◌, Bool-cases, done, throws,
}
use server_framework_learnin.Config.{
  ConfigVar, Config, is_one_of, name_characters, is_valid_name, find_name, new_config_var, cast_to,
  lookup_or_add, lookup,
}
use server_framework_learnin.Config.Members.{is_valid_name-lower}

get_elem?-front {ℓ} :
    {A : Type ℓ} (xs ys : List A) (i : ℕ) {a : A}
    → get_elem? xs i ≡ some a
    → get_elem? (xs ++ ys) i ≡ some a
get_elem?-front [] ys i h = cc
get_elem?-front (x ∷ xs) ys zero h = h
get_elem?-front (x ∷ xs) ys (suc i) h = get_elem?-front xs ys i h

get_elem?-last {ℓ} :
    {A : Type ℓ} (xs : List A) (y : A) → get_elem? (xs ++ y ∷ []) (length xs) ≡ some y
get_elem?-last [] y = refl
get_elem?-last (x ∷ xs) y = get_elem?-last xs y

find_name-last :
    (name : Text) (ds : List (Text × ℕ)) (id : ℕ)
    → find_name name ds ≡ none
    → find_name name (ds ++ (name, id) ∷ []) ≡ some id
unfolding find_name
find_name-last name [] id h = rw (same_text_refl name) refl
find_name-last name (d ∷ ds) id h = elim (Bool-cases (same_text name d.0)) [
  | inl e ↦ let no : some d.1 ≡ none = rw e at h in cc
  | inr e ↦ rw e (find_name-last name ds id (rw e at h))
]

and_false : (b : Bool) → (b && false) ≡ false
and_false true = refl
and_false false = refl

nine_is_no_character : is_one_of b'9' name_characters ≡ false
unfolding is_one_of
nine_is_no_character = refl

is_valid_name-nine : (t : Text) (i : ℕ) → get_elem? t i ≡ some b'9' → is_valid_name t ≡ false
unfolding is_valid_name
is_valid_name-nine [] i h = cc
is_valid_name-nine (x ∷ t) zero h = let nine : x ≡ b'9' = cc in rw (nine, nine_is_no_character) refl
is_valid_name-nine (x ∷ t) (suc i) h =
    rw (is_valid_name-nine t i h) (and_false (is_one_of x name_characters))

module _ {ℓ κ} {V : Type ℓ} {W : Type κ} where
  cast_to-some :
      (type_name : Text) (vars : List (ConfigVar V W)) (id : ℕ) (var : ConfigVar V W)
      → get_elem? vars id ≡ some var
      → cast_to type_name vars id ≡ (if same_text type_name var.type_name then some id else none)
  unfolding cast_to
  cast_to-some type_name vars id var e = rw (cast_to, e) refl

  -- What a cast that finds a variable says of its type.
  cast_to-other :
      (type_name other : Text) (vars : List (ConfigVar V W)) (place id : ℕ)
      → cast_to type_name vars place ≡ some id
      → same_text other type_name ≡ false
      → (id ≡ place) × (cast_to other vars place ≡ none)
  unfolding cast_to
  cast_to-other type_name other vars place id e differs =
      elim (Option-cases (get_elem? vars place)) [
        | inl gone ↦ let no : none ≡ some id = rw (cast_to, gone) at e in cc
        | inr (var, found) ↦
            let here = cast_to-some type_name vars place var found in
            elim (Bool-cases (same_text type_name var.type_name)) [
              | inl t ↦
                  let kind : type_name ≡ var.type_name = same_text-eq _ _ t in
                  let place_is : some place ≡ some id = rw (here, t) at e in
                  let differs_here : same_text other var.type_name ≡ false = rw kind at differs in
                  (cc, cast_to-some other vars place var found ∙ rw differs_here refl)
              | inr t ↦ let no : none ≡ some id = rw (here, t) at e in cc
            ]
      ]

  -- What the lookups find where a name stands in the table.
  lookups_at :
      (type_name name : Text) (c : Config V W) (place id : ℕ)
      → find_name name c.datas ≡ some place
      → cast_to type_name c.variables place ≡ some id
      → (lookup type_name name c ≡ some id)
        × ((other : Text) → same_text other type_name ≡ false → lookup other name c ≡ none)
        × ((v : V) (t : Text) → lookup_or_add type_name name v t c ≡ done (some id, c))
  unfolding lookup_or_add lookup
  lookups_at type_name name c place id found e = (
    rw (lookup, found) e,
    (λ other differs. rw (lookup, found) ((cast_to-other type_name other _ place id e differs).1)),
    (λ v t. rw (lookup_or_add, found, e) refl),
  )

  -- If Lookup with a default value finds or adds a variable, then Lookup of the name finds the same
  -- for its type and none for another type, and Lookup with any other default value gives the same
  -- variable and changes nothing.
  pub lookup_or_add_lem :
      (type_name name : Text) (value : V) (description : Text) (c after : Config V W) (id : ℕ)
      → lookup_or_add type_name name value description c ≡ done (some id, after)
      → (lookup type_name name after ≡ some id)
        × ((other : Text) → same_text other type_name ≡ false → lookup other name after ≡ none)
        × ((v : V) (t : Text) → lookup_or_add type_name name v t after ≡ done (some id, after))
  unfolding lookup_or_add lookup new_config_var
  lookup_or_add_lem type_name name value description c after id e =
      elim (Option-cases (find_name name c.datas)) [
        | inr (place, found) ↦
            let returned : done (cast_to type_name c.variables place, c) ≡ done (some id, after) =
              rw (lookup_or_add, found) at e in
            let same : c ≡ after = cc in
            let cast : cast_to type_name c.variables place ≡ some id = cc in
            rw (← same) (lookups_at type_name name c place id found cast)
        | inl new ↦ elim (Bool-cases (is_valid_name name)) [
          | inr bad ↦
              let no : throws ≡ done (some id, after) = rw (lookup_or_add, new, bad) at e in cc
          | inl good ↦
              let var : ConfigVar V W = new_config_var type_name name value description in
              let more : Config V W = record {
                variables = c.variables ++ var ∷ [];
                datas = c.datas ++ (name, length c.variables) ∷ [];
              } in
              let returned : done (some (length c.variables), more) ≡ done (some id, after) =
                rw (lookup_or_add, new, good) at e in
              let same : more ≡ after = cc in
              let place : length c.variables ≡ id = cc in
              rw (← same, ← place)
                (lookups_at type_name name more (length c.variables) (length c.variables)
                  (find_name-last name c.datas (length c.variables) new)
                  (cast_to-some type_name more.variables (length c.variables) var
                      (get_elem?-last c.variables var)
                    ∙ rw (same_text_refl type_name) refl))
        ]
      ]

  -- A name of the table is valid and stands for a variable of that name.
  abbrev pub Known : List (ConfigVar V W) → Text × ℕ → Type (ℓ ⊔ κ)
  Known vars d =
      (var : ConfigVar V W) × (get_elem? vars d.1 ≡ some var)
      × (var.name ≡ d.0)
      × (is_valid_name d.0 ≡ true)

  abbrev pub AllKnown : List (ConfigVar V W) → List (Text × ℕ) → Type (ℓ ⊔ κ)
  AllKnown vars [] = Unit {ℓ ⊔ κ}
  AllKnown vars (d ∷ ds) = Known vars d × AllKnown vars ds

  -- Each name of the table stands for a variable.
  abbrev pub Inv : Config V W → Type (ℓ ⊔ κ)
  Inv c = AllKnown c.variables c.datas

  AllKnown-front :
      (vars more : List (ConfigVar V W)) (ds : List (Text × ℕ))
      → AllKnown vars ds
      → AllKnown (vars ++ more) ds
  AllKnown-front vars more [] a = tt
  AllKnown-front vars more (d ∷ ds) ((var, e, n, v), a) =
      ((var, get_elem?-front vars more d.1 e, n, v), AllKnown-front vars more ds a)

  AllKnown-last :
      (vars : List (ConfigVar V W)) (ds : List (Text × ℕ)) (d : Text × ℕ)
      → AllKnown vars ds
      → Known vars d
      → AllKnown vars (ds ++ d ∷ [])
  AllKnown-last vars [] d a k = (k, tt)
  AllKnown-last vars (x ∷ ds) d (j, a) k = (j, AllKnown-last vars ds d a k)

  -- Lookup with a default value, where it returns, keeps the table such that each name is valid and
  -- stands for a variable of that name.
  pub lookup_or_add-Inv :
      (type_name name : Text) (value : V) (description : Text) (c after : Config V W) (o : Option ℕ)
      → Inv c
      → lookup_or_add type_name name value description c ≡ done (o, after)
      → Inv after
  unfolding lookup_or_add new_config_var
  lookup_or_add-Inv type_name name value description c after o i e =
      elim (Option-cases (find_name name c.datas)) [
        | inr (place, found) ↦
            let returned : done (cast_to type_name c.variables place, c) ≡ done (o, after) =
              rw (lookup_or_add, found) at e in
            let same : c ≡ after = cc in rw (← same) i
        | inl new ↦ elim (Bool-cases (is_valid_name name)) [
          | inr bad ↦ let no : throws ≡ done (o, after) = rw (lookup_or_add, new, bad) at e in cc
          | inl good ↦
              let var : ConfigVar V W = new_config_var type_name name value description in
              let more : Config V W = record {
                variables = c.variables ++ var ∷ [];
                datas = c.datas ++ (name, length c.variables) ∷ [];
              } in
              let returned : done (some (length c.variables), more) ≡ done (o, after) =
                rw (lookup_or_add, new, good) at e in
              let same : more ≡ after = cc in
              rw (← same) (
                AllKnown-last more.variables c.datas (name, length c.variables)
                  (AllKnown-front c.variables (var ∷ []) c.datas i)
                  (var, get_elem?-last c.variables var, is_valid_name-lower name good, good))
        ]
      ]

  -- Lookup with a default value throws for a name with a 9 in it that is not in the table.
  pub lookup_or_add-nine :
      (type_name name : Text) (value : V) (description : Text) (c : Config V W) (i : ℕ)
      → find_name name c.datas ≡ none
      → get_elem? name i ≡ some b'9'
      → lookup_or_add type_name name value description c ≡ throws
  unfolding lookup_or_add
  lookup_or_add-nine type_name name value description c i new nine =
      rw (lookup_or_add, new, is_valid_name-nine name i nine) refl
