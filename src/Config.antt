-- ===== src/Config.antt =====
-- sylar/config.h and sylar/config.cpp: the variables, their listeners and the table of names, and
-- the loading of a YAML document. The values of all types are of one type V, with the name of its
-- type beside each variable, and how a type compares and reads its values is a parameter. So is
-- what listeners act on, and YAML. Listeners return: one that throws, which leaves the old value, is
-- not modelled. A variable is known by its place among the variables, so that
-- all that look it up share it.
pub mod Listeners
pub mod Table
pub mod Members
pub mod Load
pub mod Loaded
mod Runs
use server_framework_learnin.Prelude.{
  ℕ, zero, suc, ◌+◌, ◌%◌, ◌^◌, Bool, true, false, not, ◌&&◌, ◌||◌, List, [], ◌∷◌, ◌++◌, map, Option,
  none, some, Text, codes, same_text, length, get_elem?, set, ltb, ◌==◌, if◌then◌else◌, Outcome,
  done, throws,
}
use server_framework_learnin.Http.{is_empty, lower}

-- Whether a character is one of a text.
unfoldable pub is_one_of : ℕ → Text → Bool
is_one_of c [] = false
is_one_of c (x ∷ xs) = (c == x) || is_one_of c xs

abbrev pub name_characters : Text
name_characters = codes "abcdefghikjlmnopqrstuvwxyz._012345678"

-- Whether find_first_not_of finds nothing.
unfoldable pub is_valid_name : Text → Bool
is_valid_name [] = true
is_valid_name (c ∷ t) = is_one_of c name_characters && is_valid_name t

-- How a type compares its values and reads them from a text, which may throw.
pub record Casts {ℓ} (V : Type ℓ) : Type ℓ where
  pub same : Text → V → V → Bool
  pub from_str : Text → Text → Option V

-- A node of YAML: whether it is a scalar, and its text then; the text that it is printed as; and
-- its entries if it is a map.
pub record Yaml (N : Type 0) : Type 0 where
  pub is_scalar : N → Bool
  pub scalar : N → Text
  pub printed : N → Text
  pub entries : N → Option (List (Text × N))

abbrev pub Listener {ℓ κ} : Type ℓ → Type κ → Type (ℓ ⊔ κ)
Listener V W = V → V → W → W

-- ConfigVar. m_cbs is in the order of its keys.
pub record ConfigVar {ℓ κ} (V : Type ℓ) (W : Type κ) : Type (ℓ ⊔ κ) where
  pub name : Text
  pub description : Text
  pub type_name : Text
  pub val : V
  pub cbs : List (ℕ × Listener V W)

-- All variables, and GetDatas.
pub record Config {ℓ κ} (V : Type ℓ) (W : Type κ) : Type (ℓ ⊔ κ) where
  pub variables : List (ConfigVar V W)
  pub datas : List (Text × ℕ)

unfoldable pub find_name : Text → List (Text × ℕ) → Option ℕ
find_name name [] = none
find_name name (d ∷ ds) =
    let rest = find_name name ds in if same_text name d.0 then some d.1 else rest

module _ {ℓ κ} {V : Type ℓ} {W : Type κ} where
  unfoldable pub new_config_var : Text → Text → V → Text → ConfigVar V W
  new_config_var type_name name value description = record {
    name = map lower name;
    description = description;
    type_name = type_name;
    val = value;
    cbs = [];
  }

  -- The calls of the listeners, in the order of their keys.
  unfoldable pub notify : V → V → List (ℕ × Listener V W) → W → W
  notify old new [] w = w
  notify old new (cb ∷ cbs) w = notify old new cbs (cb.1 old new w)

  unfoldable pub set_value : Casts V → V → ConfigVar V W → W → ConfigVar V W × W
  set_value casts v var w =
      if casts.same var.type_name v var.val
      then (var, w)
      else (record var { val = v }, notify var.val v var.cbs w)

  -- m_cbs[key] = cb.
  unfoldable pub put_listener : ℕ → Listener V W → List (ℕ × Listener V W) → List (ℕ × Listener V W)
  put_listener key cb [] = (key, cb) ∷ []
  put_listener key cb (c ∷ cs) =
      let rest = put_listener key cb cs in
      if ltb key c.0 then (key, cb) ∷ c ∷ cs else if key == c.0 then (key, cb) ∷ cs else c ∷ rest

  -- addListener, with the last key that was given, s_fun_id.
  unfoldable pub add_listener : ℕ → Listener V W → ConfigVar V W → ConfigVar V W × ℕ
  add_listener last cb var =
      let key = (last + 1) % 2 ^ 64 in (record var { cbs = put_listener key cb var.cbs }, key)

  unfoldable pub clear_listener : ConfigVar V W → ConfigVar V W
  clear_listener var = record var { cbs = [] }

  -- fromString, which returns false whatever it does.
  unfoldable pub from_string : Casts V → Text → ConfigVar V W → W → Bool × (ConfigVar V W × W)
  from_string casts t var w = elim (casts.from_str var.type_name t) [
    | none ↦ (false, (var, w))
    | some v ↦ (false, set_value casts v var w)
  ]

  -- dynamic_pointer_cast to the variables of a type.
  unfoldable pub cast_to : Text → List (ConfigVar V W) → ℕ → Option ℕ
  cast_to type_name vars id = elim (get_elem? vars id) [
    | none ↦ none
    | some var ↦ if same_text type_name var.type_name then some id else none
  ]

  -- Config::Lookup with a default value.
  unfoldable pub lookup_or_add :
      Text → Text → V → Text → Config V W → Outcome (Option ℕ × Config V W)
  lookup_or_add type_name name value description c = elim (find_name name c.datas) [
    | some id ↦ done (cast_to type_name c.variables id, c)
    | none ↦
        if is_valid_name name
        then done (
          some (length c.variables),
          record {
            variables = c.variables ++ new_config_var type_name name value description ∷ [];
            datas = c.datas ++ (name, length c.variables) ∷ [];
          },
        )
        else throws
  ]

  -- Config::Lookup of a name.
  unfoldable pub lookup : Text → Text → Config V W → Option ℕ
  lookup type_name name c = elim (find_name name c.datas) [
    | none ↦ none
    | some id ↦ cast_to type_name c.variables id
  ]

  unfoldable pub lookup_base : Text → Config V W → Option ℕ
  lookup_base name c = find_name name c.datas

-- prefix.empty() ? key : prefix + "." + key.
unfoldable pub member_name : Text → Text → Text
member_name [] key = key
member_name (x ∷ xs) key = (x ∷ xs) ++ (b'.' ∷ key)

-- The loop over the entries of a map.
unfoldable pub each_member :
    {N : Type 0} → (Text → N → List (Text × N)) → Text → List (Text × N) → List (Text × N)
each_member list prefix [] = []
each_member list prefix (e ∷ es) = list (member_name prefix e.0) e.1 ++ each_member list prefix es

module _ {N : Type 0} (yaml : Yaml N) where
  -- ListAllMember, on fuel for the depth of the document.
  unfoldable pub list_all_member : ℕ → Text → N → List (Text × N)
  list_all_member zero prefix node = []
  list_all_member (suc fuel) prefix node =
      let members : List (Text × N) = elim (yaml.entries node) [
        | none ↦ []
        | some es ↦ each_member (list_all_member fuel) prefix es
      ] in
      if is_valid_name prefix then (prefix, node) ∷ members else []

  -- What a node is read from.
  unfoldable pub node_text : N → Text
  node_text node = if yaml.is_scalar node then yaml.scalar node else yaml.printed node

  module _ {ℓ κ} {V : Type ℓ} {W : Type κ} (casts : Casts V) where
    -- fromString of a variable of the table.
    unfoldable pub load_at_id : ℕ → Text → Config V W × W → Config V W × W
    load_at_id id t (c, w) = elim (get_elem? c.variables id) [
      | none ↦ (c, w)
      | some var ↦
          let (_, (after, x)) = from_string casts t var w in
          (record c { variables = set c.variables id after }, x)
    ]

    -- One turn of the loop.
    unfoldable pub load_node : Text × N → Config V W × W → Config V W × W
    load_node (key, node) (c, w) =
        if is_empty key then (c, w) else elim (lookup_base (map lower key) c) [
          | none ↦ (c, w)
          | some id ↦ load_at_id id (node_text node) (c, w)
        ]

    unfoldable pub load_nodes : List (Text × N) → Config V W × W → Config V W × W
    load_nodes [] s = s
    load_nodes (n ∷ ns) s = load_nodes ns (load_node n s)

    -- Config::LoadFromYaml.
    unfoldable pub load_from_yaml : ℕ → N → Config V W × W → Config V W × W
    load_from_yaml fuel root s = load_nodes (list_all_member fuel [] root) s
