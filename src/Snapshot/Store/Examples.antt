-- ===== src/Snapshot/Store/Examples.antt =====
-- A small store, the checks on it, and the theorems on stores at it.
use blood_trail.Prelude.{
  ℕ, zero, suc, ◌<◌, ◌≡◌, refl, [], ◌∷◌, none, some, arith, search, ◌↔◌, get_or, pos,
}
use blood_trail.Snapshot.Store.{
  PropStore, PropEntry, Snapshot, prop_string, out, in_, edge_by_id, node_entries, entry_at,
  find_entry, id_at, node_count, edge_count,
}
use blood_trail.Snapshot.Store.Validate.{
  validate_snapshot_structure, validate_prop_store, validate_lengths, validate_offsets64,
  validate_offsets32, offsets_backwards, entry_order,
}
use blood_trail.Snapshot.Store.Sound.{IsStructured, validate_sound}
use blood_trail.Snapshot.Store.Reads.{IdsRise, edge_by_id_iff, find_entry_valid}

abbrev name_entry : ℕ → PropEntry ℕ
name_entry p = record { prop = p; kind = prop_string; num = 0; ref = 1; len = 2 }

abbrev small_props : PropStore ℕ
small_props = record {
  names = (97 ∷ []) ∷ (98 ∷ []) ∷ [];
  entries = name_entry 0 ∷ name_entry 1 ∷ name_entry 1 ∷ [];
  node_offsets = 0 ∷ 2 ∷ 2 ∷ 3 ∷ [];
  arena = 104 ∷ 105 ∷ 106 ∷ [];
}

-- Nodes 10, 20 and 30, with the edges 7 from 10 to 20, 5 from 10 to 30 and 9 from 30 to 20.
abbrev small : Snapshot ℕ
small = record {
  graph_ids = 10 ∷ 20 ∷ 30 ∷ [];
  out_offsets = 0 ∷ 2 ∷ 2 ∷ 3 ∷ [];
  out_targets = 1 ∷ 2 ∷ 1 ∷ [];
  out_kinds = pos 4 ∷ pos 4 ∷ pos 6 ∷ [];
  out_edge_ids = 7 ∷ 5 ∷ 9 ∷ [];
  in_offsets = 0 ∷ 0 ∷ 2 ∷ 3 ∷ [];
  in_targets = 0 ∷ 2 ∷ 0 ∷ [];
  in_kinds = pos 4 ∷ pos 6 ∷ pos 4 ∷ [];
  in_edge_idx = 0 ∷ 2 ∷ 1 ∷ [];
  kind_offsets = 0 ∷ 1 ∷ 2 ∷ 2 ∷ [];
  node_kinds = pos 1 ∷ pos 1 ∷ [];
  edge_id_perm = 1 ∷ 0 ∷ 2 ∷ [];
  props = some small_props;
}

small_passes :
    (validate_snapshot_structure small ≡ none)
    × (validate_snapshot_structure (record small { in_offsets = 0 ∷ 3 ∷ 2 ∷ 3 ∷ [] })
        ≡ some offsets_backwards)
    × (validate_prop_store (some (record small_props { node_offsets = 0 ∷ 0 ∷ 0 ∷ 3 ∷ [] })) 3
        ≡ some entry_order)
unfolding validate_snapshot_structure validate_prop_store validate_lengths validate_offsets64
    validate_offsets32 node_entries
small_passes = (refl, refl, refl)

small_reads :
    (out small 0 ≡ (1 ∷ 2 ∷ [], pos 4 ∷ pos 4 ∷ []))
    × (in_ small 1 ≡ (0 ∷ 2 ∷ [], pos 4 ∷ pos 6 ∷ []))
    × (edge_by_id small 9 ≡ some 2)
    × (edge_by_id small 6 ≡ none)
    × (node_count small ≡ 3)
    × (edge_count small ≡ 3)
unfolding out in_ edge_by_id search node_count edge_count
small_reads = (refl, refl, refl, refl, refl, refl)

small-IdsRise : IdsRise small
small-IdsRise zero (suc zero) p q = omega arith
small-IdsRise zero (suc (suc zero)) p q = omega arith
small-IdsRise (suc zero) (suc (suc zero)) p q = omega arith
small-IdsRise i zero p q = absurd (omega arith)
small-IdsRise (suc i) (suc zero) p q = absurd (omega arith)
small-IdsRise (suc (suc i)) (suc (suc zero)) p q = absurd (omega arith)
small-IdsRise i (suc (suc (suc j))) p q = absurd (omega arith)

small_props_pass : validate_prop_store (some small_props) 3 ≡ none
unfolding validate_prop_store validate_offsets32 node_entries
small_props_pass = refl

validate_sound_example : IsStructured small
validate_sound_example = validate_sound small small_passes.0

edge_by_id_iff_example :
    (edge_by_id small 9 ≡ some 2)
    ↔ ((i : ℕ) × (i < 3) × (id_at small i ≡ 9) × (get_or small.edge_id_perm i 0 ≡ 2))
edge_by_id_iff_example = edge_by_id_iff small 9 2 small-IdsRise

find_entry_valid_example : (find_entry (node_entries small_props 0) 1 ≡ some (name_entry 1)) ↔ (
    (i : ℕ) × (entry_at (node_entries small_props 0) i ≡ some (name_entry 1))
    × ((name_entry 1).prop ≡ 1))
find_entry_valid_example =
    find_entry_valid small_props 3 small_props_pass 0 (omega arith) 1 (name_entry 1)
