-- ===== src/Snapshot/EdgeKinds/Union.antt =====
-- EdgeKindEndpoints over a base index and a delta index with ascending entries.
use blood_trail.Prelude.{
  ℕ, suc, ◌≤◌, ◌≡◌, refl, sym, ap, ◌∙◌, Bool, true, false, ◌||◌, List, [], ◌∷◌, ltb, ◌==◌, sort,
  add, holds, holds-add, Distinct, add-Distinct, nat_key, arith, count, count-sort, SortedFrom,
  sort-SortedFrom, inl, inr, Bool-cases, Option, none, some,
}
use blood_trail.Snapshot.EdgeKinds.{
  merge_sorted_ids, add_all, add_kinds, union_for, merge_kinds, delta_edge_endpoints_for,
  base_endpoints, edge_kind_endpoints,
}
use blood_trail.Snapshot.EdgeKinds.Merge.{RisesFrom, merge_sorted_ids-union}

-- Some kind has the id on that side.
abbrev pub any_has : (ℕ → List ℕ) → List ℕ → ℕ → Bool
any_has side [] z = false
any_has side (k ∷ ks) z = holds z (side k) || any_has side ks z

holds-count : (z : ℕ) (xs : List ℕ) → holds z xs ≡ ltb 0 (count z xs)
holds-count z [] = refl
holds-count z (x ∷ xs) = ground (arith, holds-count z xs)

holds-sort : (z : ℕ) (xs : List ℕ) → holds z (sort xs) ≡ holds z xs
holds-sort z xs =
    holds-count z (sort xs) ∙ ap (λ c. ltb 0 c) (count-sort z xs) ∙ sym (holds-count z xs)

past_head : (x : ℕ) (xs : List ℕ) → SortedFrom x xs → count x xs ≡ 0 → SortedFrom (suc x) xs
past_head x [] v c = tt
past_head x (y ∷ ys) (p, v) c = (ground arith, v)

once-RisesFrom :
    (b : ℕ) (xs : List ℕ) → SortedFrom b xs → ((z : ℕ) → count z xs ≤ 1) → RisesFrom b xs
once-RisesFrom b [] v c = tt
once-RisesFrom b (x ∷ xs) (p, v) c = (
  p,
  once-RisesFrom (suc x) xs (past_head x xs v (ground (arith, c x))) (λ z. ground (arith, c z)),
)

count_once : (z : ℕ) (xs : List ℕ) → Distinct xs → count z xs ≤ 1
count_once z [] d = omega arith
count_once z (x ∷ xs) d = elim (Bool-cases (z == x)) [
  | inl e ↦
      let same : z ≡ x = ground arith in
      let alone : holds z xs ≡ false = rw same d.0 in ground (arith, holds-count z xs)
  | inr e ↦ ground (arith, count_once z xs d.1)
]

add_all-Distinct : (merged ids : List ℕ) → Distinct merged → Distinct (add_all merged ids)
add_all-Distinct merged [] d = d
add_all-Distinct merged (id ∷ ids) d =
    add_all-Distinct (add id merged) ids (add-Distinct id merged d)

add_kinds-Distinct :
    (side : ℕ → List ℕ) (merged ks : List ℕ) → Distinct merged → Distinct (add_kinds side merged ks)
add_kinds-Distinct side merged [] d = d
add_kinds-Distinct side merged (k ∷ ks) d =
    add_kinds-Distinct side (add_all merged (side k)) ks (add_all-Distinct merged (side k) d)

holds-add_all :
    (z : ℕ) (merged ids : List ℕ) → holds z (add_all merged ids) ≡ (holds z ids || holds z merged)
holds-add_all z merged [] = refl
holds-add_all z merged (id ∷ ids) =
    ground (arith, holds-add_all z (add id merged) ids, holds-add z id merged)

holds-add_kinds :
    (z : ℕ) (side : ℕ → List ℕ) (merged ks : List ℕ)
    → holds z (add_kinds side merged ks) ≡ (any_has side ks z || holds z merged)
holds-add_kinds z side merged [] = refl
holds-add_kinds z side merged (k ∷ ks) =
    ground
      (arith, holds-add_kinds z side (add_all merged (side k)) ks, holds-add_all z merged (side k))

-- The ids of a list are those that some kind has on the side, in strictly ascending order.
abbrev pub Lists : (ℕ → List ℕ) → List ℕ → List ℕ → Type 0
Lists side ks ids = RisesFrom 0 ids × ((z : ℕ) → holds z ids ≡ any_has side ks z)

or_false : (a : Bool) → (a || false) ≡ a
or_false true = refl
or_false false = refl

union_for-Lists : (side : ℕ → List ℕ) (ks : List ℕ) → Lists side ks (union_for side ks)
unfolding union_for
union_for-Lists side ks =
    let ids : List ℕ = add_kinds side [] ks in
    let d = add_kinds-Distinct side [] ks tt in
    (
      once-RisesFrom 0 (sort ids) (sort-SortedFrom ids)
          (λ z. rw (count-sort z ids) (count_once z ids d)),
      λ z. holds-sort z ids ∙ holds-add_kinds z side [] ks ∙ or_false (any_has side ks z),
    )

module _ (side : ℕ → List ℕ) (rises : (k : ℕ) → RisesFrom 0 (side k)) where
  merge_kinds-Lists :
      (merged ks : List ℕ)
      → RisesFrom 0 merged
      → RisesFrom 0 (merge_kinds side merged ks)
        × ((z : ℕ) → holds z (merge_kinds side merged ks) ≡ (any_has side ks z || holds z merged))
  merge_kinds-Lists merged [] v = (v, λ z. refl)
  merge_kinds-Lists merged (k ∷ ks) v =
      let once = merge_sorted_ids-union merged (side k) v (rises k) in
      let rest = merge_kinds-Lists (merge_sorted_ids merged (side k)) ks once.0 in
      (rest.0, λ z. ground (arith, rest.1 z, once.1 z))

  one_kind : (k : ℕ) → Lists side (k ∷ []) (side k)
  one_kind k = (rises k, λ z. sym (or_false (holds z (side k))))

  base_endpoints-Lists : (k : ℕ) (ks : List ℕ) → Lists side (k ∷ ks) (base_endpoints side (k ∷ ks))
  base_endpoints-Lists k [] = one_kind k
  base_endpoints-Lists k (k' ∷ ks) = union_for-Lists side (k ∷ k' ∷ ks)

  delta_endpoints-Lists :
      (k : ℕ) (ks : List ℕ) → Lists side (k ∷ ks) (delta_edge_endpoints_for side (k ∷ ks))
  unfolding delta_edge_endpoints_for
  delta_endpoints-Lists k [] = one_kind k
  delta_endpoints-Lists k (k' ∷ ks) =
      let r = merge_kinds-Lists [] (k ∷ k' ∷ ks) tt in
      (r.0, λ z. r.1 z ∙ or_false (any_has side (k ∷ k' ∷ ks) z))

-- The index of the delta, which has no ids where the view has no overlay.
abbrev pub overlay_side : Option (ℕ → List ℕ) → ℕ → List ℕ
overlay_side none k = []
overlay_side (some delta) k = delta k

none_has : (ks : List ℕ) (z : ℕ) → any_has (overlay_side none) ks z ≡ false
none_has [] z = refl
none_has (k ∷ ks) z = none_has ks z

-- With at least one kind, EdgeKindEndpoints answers the ids that some kind has in the base or in the
-- overlay, strictly ascending, where each entry of both indexes is. On a view without an overlay
-- these are the ids in the base.
pub edge_kind_endpoints-union :
    (side : ℕ → List ℕ) (overlay : Option (ℕ → List ℕ))
    → ((k : ℕ) → RisesFrom 0 (side k))
    → ((k : ℕ) → RisesFrom 0 (overlay_side overlay k))
    → (k : ℕ) (ks : List ℕ)
    → (ids : List ℕ) × (edge_kind_endpoints side overlay (k ∷ ks) ≡ some ids)
      × RisesFrom 0 ids
      × ((z : ℕ)
          → holds z ids ≡ (any_has side (k ∷ ks) z || any_has (overlay_side overlay) (k ∷ ks) z))
unfolding edge_kind_endpoints
edge_kind_endpoints-union side none rises rises' k ks =
    let base = base_endpoints-Lists side rises k ks in
    (
      _,
      refl,
      base.0,
      λ z.
          base.1 z
          ∙ sym (or_false (any_has side (k ∷ ks) z))
          ∙ ap (λ b. any_has side (k ∷ ks) z || b) (sym (none_has (k ∷ ks) z)),
    )
edge_kind_endpoints-union side (some delta) rises rises' k ks =
    let base = base_endpoints-Lists side rises k ks in
    let over = delta_endpoints-Lists delta rises' k ks in
    let both = merge_sorted_ids-union _ _ base.0 over.0 in
    (_, refl, both.0, λ z. both.1 z ∙ rw (base.1 z, over.1 z))
