-- ===== src/Snapshot/KindTable.antt =====
-- internal/engine/snapshot/kinds.go: KindTable. A kind id is an int16, so signed; a map is the list of
-- its entries in the order of an iteration.
pub mod Names
mod Examples
use blood_trail.Prelude.{
  ℕ, suc, ◌+◌, Bool, List, [], ◌∷◌, Option, none, some, ltb, leb, if◌then◌else◌, length, get_or,
  set, replicate, Str, store, lookup, str_key, ℤ, pos, negsuc,
}

pub record KindTable : Type 0 where
  pub names : List Str
  pub ids : List (Str × ℤ)

-- The largest id, from 0 on: a negative id is never above it.
abbrev pub max_id : ℕ → List (ℤ × Str) → ℕ
max_id m [] = m
max_id m ((pos id, name) ∷ pairs) = max_id (if ltb m id then id else m) pairs
max_id m ((negsuc id, name) ∷ pairs) = max_id m pairs

abbrev pub fill_names : List Str → List (ℤ × Str) → List Str
fill_names names [] = names
fill_names names ((pos id, name) ∷ pairs) = fill_names (set names id name) pairs
fill_names names ((negsuc id, name) ∷ pairs) = fill_names names pairs

abbrev pub fill_ids : List (Str × ℤ) → List (ℤ × Str) → List (Str × ℤ)
fill_ids ids [] = ids
fill_ids ids ((id, name) ∷ pairs) = fill_ids (store name id ids) pairs

unfoldable pub new_kind_table : List (ℤ × Str) → KindTable
new_kind_table pairs = record {
  names = fill_names (replicate (max_id 0 pairs + 1) []) pairs;
  ids = fill_ids [] pairs;
}

abbrev pub non_empty : Str → Option Str
non_empty [] = none
non_empty (c ∷ cs) = some (c ∷ cs)

unfoldable pub name_of : KindTable → ℤ → Option Str
name_of t (negsuc id) = none
name_of t (pos id) = if leb (length t.names) id then none else non_empty (get_or t.names id [])

unfoldable pub id_of : KindTable → Str → Option ℤ
id_of t name = lookup name t.ids

unfoldable pub kinds_held : KindTable → ℕ
kinds_held t = length t.ids
