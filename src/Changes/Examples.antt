-- ===== src/Changes/Examples.antt =====
-- A change set of a few calls, a scope, and the theorems on change sets at them.
use blood_trail.Prelude.{
  ◌++◌, ◌==◌, Option, length, inl, arith, ℕ, ◌≡◌, refl, true, false, List, [], ◌∷◌, none, some,
  if◌then◌else◌, Str, sort, holds, count, SortedFrom, keys, triple_key, same_str, nat_key,
}
use blood_trail.Changes.{
  insert_str, node_ids, empty, key_count, has_fallback, sort_strings, str_le, kinds_key,
  record_node_id, record_edge_triple, record_delete_nodes_by_kinds,
}
use blood_trail.Changes.Readers.{node_kind_criteria, edge_triples, sort_slice}
use blood_trail.Changes.Keys.{IsName, AllNames, names}
use blood_trail.Changes.Kept.{In, Elsewhere, wanted, node_kind_criteria_kept}
use blood_trail.Changes.Scope.{
  new_write_scope, set_watermark, watermark_of, mark_watermark_bump_failed,
}
use blood_trail.Changes.History.{
  Call, node, triple, delete_nodes, record_call, recorded, ids_called, node_ids-recorded,
  empty-recorded, only_incomplete,
}

-- A kind is its own name.
abbrev own_name : Str → Str
own_name s = s

abbrev calls : List (Call Str)
calls =
    node 7
    ∷ triple 3 4 (some (85 ∷ []))
    ∷ node 2
    ∷ node 7
    ∷ triple 3 4 (some (85 ∷ []))
    ∷ delete_nodes (some (66 ∷ []) ∷ some (65 ∷ []) ∷ []) []
    ∷ []

small_change_set :
    (node_ids (recorded own_name calls) ≡ 2 ∷ 7 ∷ [])
    × (key_count (recorded own_name calls) ≡ 4)
    × (empty (recorded own_name calls) ≡ false)
    × (has_fallback (recorded own_name calls) ≡ none)
unfolding node_ids key_count empty has_fallback recorded record_call record_node_id
    record_edge_triple record_delete_nodes_by_kinds sort kinds_key sort_strings triple_key same_str
small_change_set = (refl, refl, refl, refl)

key_of_kinds : kinds_key own_name (some (66 ∷ []) ∷ some (65 ∷ []) ∷ []) ≡ 65 ∷ 44 ∷ 66 ∷ []
unfolding kinds_key sort_strings str_le
key_of_kinds = refl

scope_marks :
    (watermark_of {K = Str} (set_watermark 9 new_write_scope) ≡ some 9)
    × ((mark_watermark_bump_failed {K = Str} new_write_scope).1 ≡ true)
    × ((mark_watermark_bump_failed {K = Str} (mark_watermark_bump_failed new_write_scope).0).1
        ≡ false)
unfolding set_watermark watermark_of mark_watermark_bump_failed new_write_scope
scope_marks = (refl, refl, refl)

node_ids-recorded_example :
    SortedFrom 0 (node_ids (recorded own_name calls))
    × ((x : ℕ)
        → count x (node_ids (recorded own_name calls))
          ≡ (if holds x (ids_called calls) then 1 else 0))
node_ids-recorded_example = node_ids-recorded own_name calls

empty-recorded_example : empty (recorded own_name calls) ≡ only_incomplete calls
empty-recorded_example = empty-recorded own_name calls

readers_sorted :
    (node_kind_criteria (recorded own_name calls)
      ≡ record { include = some (66 ∷ []) ∷ some (65 ∷ []) ∷ []; exclude = [] } ∷ [])
    × (edge_triples own_name (recorded own_name calls)
        ≡ record { start = 3; end_ = 4; kind = some (85 ∷ []) } ∷ [])
unfolding keys node_kind_criteria edge_triples sort_slice recorded record_call record_node_id
    record_edge_triple record_delete_nodes_by_kinds kinds_key sort_strings triple_key same_str
    str_le
readers_sorted = (refl, refl)

-- Kinds A and B, in the two orders, and calls after them.
abbrev kinds_ab : List (Option Str)
kinds_ab = some (65 ∷ []) ∷ some (66 ∷ []) ∷ []

abbrev later_calls : List (Call Str)
later_calls = node 9 ∷ delete_nodes (some (65 ∷ []) ∷ []) [] ∷ []

abbrev whole : List (Call Str)
whole = later_calls ++ delete_nodes kinds_ab [] ∷ calls

one_letter : (n : ℕ) → (n == 44) ≡ false → (n == 124) ≡ false → IsName (n ∷ [])
one_letter n a b = (λ e. cc, ground arith, ground arith)

ab_named : AllNames (names own_name kinds_ab)
unfolding sort_strings insert_str str_le
ab_named = (one_letter 65 refl refl, (one_letter 66 refl refl, tt))

later-Elsewhere : Elsewhere own_name kinds_ab [] later_calls
unfolding sort_strings insert_str str_le
later-Elsewhere = ((one_letter 65 refl refl, tt), tt, inl (λ e. cc), tt)

no_kinds_named : AllNames (names own_name [])
unfolding sort_strings
no_kinds_named = tt

node_kind_criteria_kept_example :
    In (wanted own_name kinds_ab []) (node_kind_criteria (recorded own_name whole))
    × ((i x : List (Option Str))
        → names own_name i ≡ names own_name kinds_ab
        → names own_name x ≡ names own_name []
        → length (node_kind_criteria (recorded own_name (delete_nodes i x ∷ whole)))
          ≡ length (node_kind_criteria (recorded own_name whole)))
node_kind_criteria_kept_example =
    node_kind_criteria_kept own_name kinds_ab [] later_calls calls ab_named no_kinds_named
      later-Elsewhere
