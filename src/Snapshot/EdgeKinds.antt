-- ===== src/Snapshot/EdgeKinds.antt =====
-- internal/engine/snapshot/edgekindindex.go: the nodes at the ends of the edges of each kind. The
-- memo tables of unions are left out: an answer is computed each time. A kind is a number here.
pub mod Merge
pub mod Union
mod Examples
use blood_trail.Prelude.{
  ℕ, zero, suc, Bool, true, false, List, [], ◌∷◌, ◌++◌, ltb, ◌==◌, if◌then◌else◌, sort, add,
  nat_key, length, ◌+◌, Option, none, some,
}

-- `ids` in reverse, so that its tail is the head.
abbrev pub last_is : List ℕ → ℕ → Bool
last_is [] id = false
last_is (x ∷ []) id = x == id
last_is (x ∷ y ∷ ys) id = last_is (y ∷ ys) id

unfoldable pub append_distinct_tail : List ℕ → ℕ → List ℕ
append_distinct_tail ids id = if last_is ids id then ids else ids ++ id ∷ []

-- The rest of the loop, after an item that was kept.
abbrev pub dedupe_after : ℕ → List ℕ → List ℕ
dedupe_after last [] = []
dedupe_after last (x ∷ xs) = if x == last then dedupe_after last xs else x ∷ dedupe_after x xs

unfoldable pub dedupe_sorted : List ℕ → List ℕ
dedupe_sorted [] = []
dedupe_sorted (x ∷ xs) = x ∷ dedupe_after x xs

-- One round takes one item of `a` or `b` or both, so their lengths together are rounds enough.
unfoldable pub merge_rounds : ℕ → List ℕ → List ℕ → List ℕ
merge_rounds n [] b = b
merge_rounds n (x ∷ a) [] = x ∷ a
merge_rounds zero (x ∷ a) (y ∷ b) = []
merge_rounds (suc n) (x ∷ a) (y ∷ b) = elim (ltb x y) [
  | true ↦ x ∷ merge_rounds n a (y ∷ b)
  | false ↦ elim (ltb y x) [ true ↦ y ∷ merge_rounds n (x ∷ a) b | false ↦ x ∷ merge_rounds n a b ]
]

unfoldable pub merge_sorted_ids : List ℕ → List ℕ → List ℕ
unfolding merge_rounds
merge_sorted_ids a [] = a
merge_sorted_ids [] (y ∷ b) = y ∷ b
merge_sorted_ids (x ∷ a) (y ∷ b) = merge_rounds (suc (length a) + suc (length b)) (x ∷ a) (y ∷ b)

-- The loops of unionFor: `seen` and `merged` hold the same ids.
abbrev pub add_all : List ℕ → List ℕ → List ℕ
add_all merged [] = merged
add_all merged (id ∷ ids) = add_all (add id merged) ids

abbrev pub add_kinds : (ℕ → List ℕ) → List ℕ → List ℕ → List ℕ
add_kinds side merged [] = merged
add_kinds side merged (k ∷ ks) = add_kinds side (add_all merged (side k)) ks

unfoldable pub union_for : (ℕ → List ℕ) → List ℕ → List ℕ
union_for side kinds = sort (add_kinds side [] kinds)

-- The several kinds of deltaEdgeEndpointsFor.
abbrev pub merge_kinds : (ℕ → List ℕ) → List ℕ → List ℕ → List ℕ
merge_kinds side merged [] = merged
merge_kinds side merged (k ∷ ks) = merge_kinds side (merge_sorted_ids merged (side k)) ks

unfoldable pub delta_edge_endpoints_for : (ℕ → List ℕ) → List ℕ → List ℕ
unfolding merge_sorted_ids
delta_edge_endpoints_for side (k ∷ []) = side k
delta_edge_endpoints_for side kinds = merge_kinds side [] kinds

-- EdgeKindEndpoints from the side of the base index on; none is its false.
abbrev pub base_endpoints : (ℕ → List ℕ) → List ℕ → List ℕ
base_endpoints side (k ∷ []) = side k
base_endpoints side kinds = union_for side kinds

-- `overlay` is the side of the index of the delta, none where the view has no overlay.
unfoldable pub edge_kind_endpoints : (ℕ → List ℕ) → Option (ℕ → List ℕ) → List ℕ → Option (List ℕ)
unfolding union_for merge_sorted_ids delta_edge_endpoints_for
edge_kind_endpoints side overlay [] = none
edge_kind_endpoints side none (k ∷ ks) = some (base_endpoints side (k ∷ ks))
edge_kind_endpoints side (some delta) (k ∷ ks) =
    some (merge_sorted_ids (base_endpoints side (k ∷ ks)) (delta_edge_endpoints_for delta (k ∷ ks)))
