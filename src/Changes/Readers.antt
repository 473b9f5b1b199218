-- ===== src/Changes/Readers.antt =====
-- internal/engine/changes.go: the readers of triples and of criteria, in a fixed order.
use blood_trail.Prelude.{
  Bool, not, List, [], ◌∷◌, map, Option, none, some, ltb, ◌==◌, if◌then◌else◌, Str, keys, lookup,
  str_key,
}
use blood_trail.Changes.{
  ChangeSet, EdgeTripleRef, EdgeTripleOidRef, NodeKindDeleteCriteria, kind_name, str_le,
  sort_strings,
}

-- `x < y` on strings.
abbrev pub str_less : Str → Str → Bool
str_less x y = not (str_le y x)

insert_by {ℓ} : {A : Type ℓ} → (A → A → Bool) → A → List A → List A
insert_by less x [] = x ∷ []
insert_by less x (y ∷ ys) = if less y x then y ∷ insert_by less x ys else x ∷ y ∷ ys

-- sort.Slice, where no two items are equal in the order.
unfoldable pub sort_slice {ℓ} : {A : Type ℓ} → (A → A → Bool) → List A → List A
unfolding insert_by
sort_slice less [] = []
sort_slice less (x ∷ xs) = insert_by less x (sort_slice less xs)

module _ {K : Type 0} (string : K → Str) where
  abbrev pub triple_less : EdgeTripleRef K → EdgeTripleRef K → Bool
  triple_less a b =
      if not (a.start == b.start)
      then ltb a.start b.start
      else if not (a.end_ == b.end_)
      then ltb a.end_ b.end_
      else str_less (kind_name string a.kind) (kind_name string b.kind)

  unfoldable pub edge_triples : ChangeSet K → List (EdgeTripleRef K)
  unfolding sort_slice
  edge_triples c = sort_slice triple_less (map (λ e. e.1) c.edge_triples)

  abbrev pub triple_oid_less : EdgeTripleOidRef K → EdgeTripleOidRef K → Bool
  triple_oid_less a b =
      if not (str_key.same a.start_oid b.start_oid)
      then str_less a.start_oid b.start_oid
      else if not (str_key.same a.end_oid b.end_oid)
      then str_less a.end_oid b.end_oid
      else str_less (kind_name string a.kind) (kind_name string b.kind)

  unfoldable pub edge_triples_by_object_id : ChangeSet K → List (EdgeTripleOidRef K)
  unfolding sort_slice
  edge_triples_by_object_id c = sort_slice triple_oid_less (map (λ e. e.1) c.edge_triples_oid)

module _ {K : Type 0} where
  -- `m[k]`, the zero value where it is missing.
  abbrev pub criteria_at : Option (NodeKindDeleteCriteria K) → NodeKindDeleteCriteria K
  criteria_at none = record { include = []; exclude = [] }
  criteria_at (some x) = x

  unfoldable pub node_kind_criteria : ChangeSet K → List (NodeKindDeleteCriteria K)
  node_kind_criteria c =
      map (λ k. criteria_at (lookup k c.node_kind_deletes))
        (sort_strings (keys c.node_kind_deletes))

  abbrev pub kinds_at : Option (List (Option K)) → List (Option K)
  kinds_at none = []
  kinds_at (some ks) = ks

  unfoldable pub edge_kind_criteria : ChangeSet K → List (List (Option K))
  edge_kind_criteria c =
      map (λ k. kinds_at (lookup k c.edge_kind_deletes)) (sort_strings (keys c.edge_kind_deletes))
