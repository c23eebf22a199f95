-- ===== src/Config/Load.antt =====
-- sylar/config.cpp: LoadFromYaml and the table of the variables.
use server_framework_learnin.Prelude.{
  ℕ, ◌≡◌, ◌≢◌, inl, inr, refl, ap, ◌∙◌, List, [], ◌∷◌, map, some, Option-cases, Text, get_elem?,
  get_elem?-some, get_elem?-set_self, get_elem?-set_ne, set, ◌==◌, Bool-cases, arith,
}
use server_framework_learnin.Http.{is_empty, lower}
use server_framework_learnin.Config.{
  Casts, Yaml, ConfigVar, Config, find_name, set_value, from_string, lookup_base, list_all_member,
  load_at_id, load_node, load_nodes, load_from_yaml,
}
use server_framework_learnin.Config.Table.{Known, AllKnown, Inv}

-- LoadFromYaml keeps the table.
module _ {ℓ κ} {N : Type 0} {V : Type ℓ} {W : Type κ} (yaml : Yaml N) (casts : Casts V) where
  set_value-name :
      (v : V) (var : ConfigVar V W) (w : W) → (set_value casts v var w).0.name ≡ var.name
  unfolding set_value
  set_value-name v var w = elim (Bool-cases (casts.same var.type_name v var.val)) [
    | inl same ↦ rw (set_value, same) refl
    | inr new ↦ rw (set_value, new) refl
  ]

  from_string-name :
      (t : Text) (var : ConfigVar V W) (w : W) → (from_string casts t var w).1.0.name ≡ var.name
  unfolding from_string
  from_string-name t var w = elim (Option-cases (casts.from_str var.type_name t)) [
    | inl none_read ↦ rw (from_string, none_read) refl
    | inr (v, read) ↦ rw (from_string, read) (set_value-name v var w)
  ]

  set-Known :
      (vars : List (ConfigVar V W)) (id : ℕ) (old new : ConfigVar V W) (d : Text × ℕ)
      → get_elem? vars id ≡ some old
      → new.name ≡ old.name
      → Known vars d
      → Known (set vars id new) d
  set-Known vars id old new d e n (var, f, m, v) = elim (Bool-cases (d.1 == id)) [
    | inl here ↦
        let place : d.1 ≡ id = ground arith in
        let same : old ≡ var = cc in
        (
          new,
          rw place (get_elem?-set_self vars id new (get_elem?-some vars id e)),
          n ∙ ap (λ (x : ConfigVar V W). x.name) same ∙ m,
          v,
        )
    | inr there ↦
        let apart : id ≢ d.1 = ground arith in (var, get_elem?-set_ne vars new apart ∙ f, m, v)
  ]

  AllKnown-set :
      (vars : List (ConfigVar V W)) (id : ℕ) (old new : ConfigVar V W) (ds : List (Text × ℕ))
      → get_elem? vars id ≡ some old
      → new.name ≡ old.name
      → AllKnown vars ds
      → AllKnown (set vars id new) ds
  AllKnown-set vars id old new [] e n a = tt
  AllKnown-set vars id old new (d ∷ ds) e n ((var, f, m, v), a) =
      (set-Known vars id old new d e n (var, f, m, v), AllKnown-set vars id old new ds e n a)

  load_at_id-Inv :
      (id : ℕ) (t : Text) (c : Config V W) (w : W)
      → Inv c
      → Inv (load_at_id yaml casts id t (c, w)).0
  unfolding load_at_id
  load_at_id-Inv id t c w i = elim (Option-cases (get_elem? c.variables id)) [
    | inl gone ↦ rw (load_at_id, gone) i
    | inr (var, found) ↦
        rw (load_at_id, found)
          (AllKnown-set c.variables id var (from_string casts t var w).1.0 c.datas found
            (from_string-name t var w) i)
  ]

  load_node-Inv :
      (n : Text × N) (c : Config V W) (w : W) → Inv c → Inv (load_node yaml casts n (c, w)).0
  unfolding load_node lookup_base
  load_node-Inv n c w i = elim (Bool-cases (is_empty n.0)) [
    | inl none_named ↦ rw (load_node, none_named) i
    | inr named ↦ elim (Option-cases (find_name (map lower n.0) c.datas)) [
      | inl gone ↦ rw (load_node, named, gone) i
      | inr (id, found) ↦ rw (load_node, named, found) (load_at_id-Inv id _ c w i)
    ]
  ]

  load_nodes-Inv :
      (ns : List (Text × N)) (c : Config V W) (w : W)
      → Inv c
      → Inv (load_nodes yaml casts ns (c, w)).0
  unfolding load_nodes
  load_nodes-Inv [] c w i = i
  load_nodes-Inv (n ∷ ns) c w i = load_nodes-Inv ns _ _ (load_node-Inv n c w i)

  -- If each name of the table is valid and stands for a variable of that name, then LoadFromYaml of
  -- any document leaves it so.
  pub load_from_yaml-Inv :
      (fuel : ℕ) (root : N) (c : Config V W) (w : W)
      → Inv c
      → Inv (load_from_yaml yaml casts fuel root (c, w)).0
  unfolding load_from_yaml
  load_from_yaml-Inv fuel root c w i = load_nodes-Inv (list_all_member yaml fuel [] root) c w i
