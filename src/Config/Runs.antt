-- ===== src/Config/Runs.antt =====
-- Runs of the table of variables on a small document.
use server_framework_learnin.Prelude.{
  ℕ, zero, suc, ◌≡◌, refl, false, List, [], ◌∷◌, Option, none, some, Text, codes, same_text, length,
  ◌==◌, done,
}
use server_framework_learnin.Http.{is_empty, lower}
use server_framework_learnin.Config.{
  Casts, Yaml, ConfigVar, Config, find_name, cast_to, lookup, lookup_or_add, set_value, notify,
  is_valid_name, is_one_of, list_all_member, each_member, member_name, node_text,
}
use server_framework_learnin.Config.Listeners.{noting, Chain, stays, set_values, set_values-Chain}
use server_framework_learnin.Config.Table.{lookup_or_add_lem}
use server_framework_learnin.Config.Loaded.{loaded, read_value}

abbrev numbers : Casts ℕ
numbers = record { same = λ t a b. a == b; from_str = λ t text. some (length text) }

abbrev port : ConfigVar ℕ (List (ℕ × ℕ))
port = record {
  name = codes "tcp.port";
  description = [];
  type_name = codes "int";
  val = 1;
  cbs = (1, noting) ∷ [];
}

-- The second of three values is as the first.
set_values-Chain_example : Chain (λ a b. a == b) 1 ((1, 4) ∷ (4, 6) ∷ []) 6
unfolding set_values set_value notify
set_values-Chain_example = set_values-Chain numbers (4 ∷ 4 ∷ 6 ∷ []) port 1 1 [] refl (stays 1)

abbrev table : Config ℕ (List (ℕ × ℕ))
table = record { variables = port ∷ []; datas = (codes "tcp.port", 0) ∷ [] }

lookup_or_add_lem_example :
    (lookup (codes "int") (codes "tcp.port") table ≡ some 0)
    × ((other : Text)
        → same_text other (codes "int") ≡ false
        → lookup other (codes "tcp.port") table ≡ none)
    × ((v : ℕ) (t : Text)
        → lookup_or_add (codes "int") (codes "tcp.port") v t table ≡ done (some 0, table))
unfolding lookup_or_add find_name cast_to same_text
lookup_or_add_lem_example =
    lookup_or_add_lem (codes "int") (codes "tcp.port") 7 [] table table 0 refl

-- A document of three nodes, the last of which is the number of a port under two names.
abbrev document : Yaml ℕ
document = record {
  is_scalar = λ n. n == 2;
  scalar = λ n. codes "8020";
  printed = λ n. [];
  entries = λ n. entries_of n;
}
  where
    entries_of : ℕ → Option (List (Text × ℕ))
    entries_of zero = some ((codes "tcp", 1) ∷ (codes "TCP", 1) ∷ [])
    entries_of (suc zero) = some ((codes "port", 2) ∷ [])
    entries_of (suc (suc n)) = none

-- The text of the document is read, and has the length 4.
loaded-document :
    loaded document numbers table.datas 0 (codes "int") 1 (list_all_member document 3 [] 0) ≡ 4
unfolding loaded read_value list_all_member each_member member_name is_valid_name is_one_of
    node_text find_name same_text is_empty lower
loaded-document = refl
