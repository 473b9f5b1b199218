-- ===== src/Snapshot/EdgeKinds/Examples.antt =====
-- Endpoints of two kinds over small indexes, and the theorems on them there.
use blood_trail.Prelude.{
  ℕ, zero, suc, ◌≡◌, refl, ◌||◌, List, [], ◌∷◌, none, some, arith, holds, nat_key, sort,
}
use blood_trail.Snapshot.EdgeKinds.{
  append_distinct_tail, dedupe_sorted, merge_rounds, merge_sorted_ids, union_for,
  delta_edge_endpoints_for, edge_kind_endpoints,
}
use blood_trail.Snapshot.EdgeKinds.Merge.{RisesFrom, dedupe_sorted-distinct}
use blood_trail.Snapshot.EdgeKinds.Union.{overlay_side, any_has, edge_kind_endpoints-union}

abbrev base : ℕ → List ℕ
base zero = 1 ∷ 4 ∷ []
base (suc k) = 2 ∷ 4 ∷ 9 ∷ []

abbrev overlay : ℕ → List ℕ
overlay zero = 0 ∷ []
overlay (suc k) = 4 ∷ 7 ∷ []

base_rises : (k : ℕ) → RisesFrom 0 (base k)
base_rises zero = (omega arith, (omega arith, tt))
base_rises (suc k) = (omega arith, (omega arith, (omega arith, tt)))

overlay_rises : (k : ℕ) → RisesFrom 0 (overlay k)
overlay_rises zero = (omega arith, tt)
overlay_rises (suc k) = (omega arith, (omega arith, tt))

endpoints_run :
    (edge_kind_endpoints base (some overlay) (0 ∷ 1 ∷ []) ≡ some (0 ∷ 1 ∷ 2 ∷ 4 ∷ 7 ∷ 9 ∷ []))
    × (edge_kind_endpoints base (some overlay) [] ≡ none)
    × (dedupe_sorted (1 ∷ 1 ∷ 4 ∷ 9 ∷ 9 ∷ []) ≡ 1 ∷ 4 ∷ 9 ∷ [])
    × (append_distinct_tail (3 ∷ 5 ∷ []) 5 ≡ 3 ∷ 5 ∷ [])
unfolding edge_kind_endpoints merge_sorted_ids merge_rounds union_for delta_edge_endpoints_for
    dedupe_sorted append_distinct_tail sort
endpoints_run = (refl, refl, refl, refl)

edge_kind_endpoints-union_example :
    (ids : List ℕ) × (edge_kind_endpoints base (some overlay) (0 ∷ 1 ∷ []) ≡ some ids)
    × RisesFrom 0 ids
    × ((z : ℕ)
        → holds z ids
          ≡ (any_has base (0 ∷ 1 ∷ []) z || any_has (overlay_side (some overlay)) (0 ∷ 1 ∷ []) z))
edge_kind_endpoints-union_example =
    edge_kind_endpoints-union base (some overlay) base_rises overlay_rises 0 (1 ∷ [])

dedupe_sorted-distinct_example :
    RisesFrom 0 (dedupe_sorted (1 ∷ 1 ∷ 4 ∷ []))
    × ((z : ℕ) → holds z (dedupe_sorted (1 ∷ 1 ∷ 4 ∷ [])) ≡ holds z (1 ∷ 1 ∷ 4 ∷ []))
dedupe_sorted-distinct_example =
    dedupe_sorted-distinct (1 ∷ 1 ∷ 4 ∷ []) (omega arith, (omega arith, (omega arith, tt)))
