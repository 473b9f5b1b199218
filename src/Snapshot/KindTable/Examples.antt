-- ===== src/Snapshot/KindTable/Examples.antt =====
-- A small kind table, and the theorem on it.
use blood_trail.Prelude.{ℕ, ◌≡◌, refl, List, [], ◌∷◌, none, some, Str, ℤ, pos, negsuc, same_str}
use blood_trail.Snapshot.KindTable.{new_kind_table, name_of, id_of, kinds_held, non_empty}
use blood_trail.Snapshot.KindTable.Names.{named, name_of-new_kind_table}

abbrev kinds : List (ℤ × Str)
kinds = (pos 3, 85 ∷ []) ∷ (pos 1, 71 ∷ []) ∷ []

kinds_read :
    (name_of (new_kind_table kinds) (pos 3) ≡ some (85 ∷ []))
    × (name_of (new_kind_table kinds) (pos 2) ≡ none)
    × (name_of (new_kind_table kinds) (pos 9) ≡ none)
    × (id_of (new_kind_table kinds) (71 ∷ []) ≡ some (pos 1))
    × (kinds_held (new_kind_table kinds) ≡ 2)
unfolding name_of new_kind_table id_of kinds_held same_str
kinds_read = (refl, refl, refl, refl, refl)

name_of-new_kind_table_example :
    ((id : ℕ) → name_of (new_kind_table kinds) (pos id) ≡ non_empty (named [] kinds id))
    × ((id : ℕ) → name_of (new_kind_table kinds) (negsuc id) ≡ none)
name_of-new_kind_table_example = name_of-new_kind_table kinds
