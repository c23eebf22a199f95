-- ===== src/Config/Loaded.antt =====
-- sylar/config.cpp: what LoadFromYaml makes of one variable.
use server_framework_learnin.Prelude.{
  ℕ, ◌≡◌, Bool, false, List, [], ◌∷◌, map, none, some, Text, get_elem?, ◌==◌, if◌then◌else◌,
}
use server_framework_learnin.Http.{is_empty, lower}
use server_framework_learnin.Config.{Casts, Yaml, ConfigVar, Config, find_name, node_text}

-- Whether a key stands for the variable `id`.
abbrev pub is_for : List (Text × ℕ) → ℕ → Text → Bool
is_for datas id key =
    if is_empty key
    then false
    else elim (find_name (map lower key) datas) [ none ↦ false | some j ↦ j == id ]

module _ {ℓ} {N : Type 0} {V : Type ℓ} (yaml : Yaml N) (casts : Casts V) where
  -- A value after a text is read: the new one, if the text can be read and it is not the same.
  unfoldable pub read_value : Text → Text → V → V
  read_value type_name t v = elim (casts.from_str type_name t) [
    | none ↦ v
    | some u ↦ if casts.same type_name u v then v else u
  ]

  -- The value of a variable after the nodes of a document, of which only those whose key stands for
  -- it are read, in their order.
  unfoldable pub loaded : List (Text × ℕ) → ℕ → Text → V → List (Text × N) → V
  loaded datas id type_name v [] = v
  loaded datas id type_name v (n ∷ ns) =
      let u = if is_for datas id n.0 then read_value type_name (node_text yaml n.1) v else v in
      loaded datas id type_name u ns

  module _ {κ} {W : Type κ} where
    -- The variable at `id` is `var`, and the table of the names is `datas`.
    At : ℕ → ConfigVar V W → List (Text × ℕ) → Config V W → Type (ℓ ⊔ κ)
    At id var datas c = (get_elem? c.variables id ≡ some var) × (c.datas ≡ datas)
