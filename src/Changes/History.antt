-- ===== src/Changes/History.antt =====
-- A change set after any sequence of Record calls, against what the calls recorded.
use blood_trail.Prelude.{
  ℕ, ◌≡◌, refl, ap, ◌∙◌, Bool, true, false, ◌||◌, List, [], ◌∷◌, ◌++◌, Option, ◌==◌, if◌then◌else◌,
  arith, Str, Key, add, store, holds, Distinct, keys, keys-store, holds-add, add-Distinct, nat_key,
  str_key, triple_key, count, count-sort, SortedFrom, sort-SortedFrom, inl, inr, Bool-cases,
}
use blood_trail.Changes.{
  ChangeSet, new_change_set, kind_name, kinds_key, record_node_id, record_node_object_id,
  record_edge_id, record_edge_triple, record_edge_triple_by_object_id, record_delete_nodes_by_kinds,
  record_delete_relationships_by_kinds, record_fallback, record_write_incomplete, empty, node_ids,
  nothing, bar,
}

-- A call of a Record method.
pub data Call (K : Type 0) : Type 0 where
  node edge : ℕ → Call K
  node_object : Str → Call K
  triple : ℕ → ℕ → Option K → Call K
  triple_oid : Str → Str → Option K → Call K
  delete_nodes : List (Option K) → List (Option K) → Call K
  delete_edges : List (Option K) → Call K
  fallback incomplete : Str → Call K

module _ {ℓ} {K : Type ℓ} ⦃key : Key K⦄ where
  nothing-add : (k : K) (xs : List K) → nothing (add k xs) ≡ false
  nothing-add k [] = refl
  nothing-add k (x ∷ xs) = elim (Bool-cases (key.same k x)) [ inl e ↦ rw e | inr e ↦ rw e ]

module _ {ℓ κ} {K : Type ℓ} {V : Type κ} ⦃key : Key K⦄ where
  nothing-store : (k : K) (v : V) (m : List (K × V)) → nothing (store k v m) ≡ false
  nothing-store k v [] = refl
  nothing-store k v ((k', v') ∷ m) = elim (Bool-cases (key.same k k')) [
    | inl e ↦ rw e
    | inr e ↦ rw e
  ]

  store-Distinct :
      (k : K) (v : V) (m : List (K × V)) → Distinct (keys m) → Distinct (keys (store k v m))
  store-Distinct k v m d = rw (keys-store k v m) (add-Distinct k (keys m) d)

count-Distinct : (x : ℕ) (xs : List ℕ) → Distinct xs → count x xs ≡ (if holds x xs then 1 else 0)
count-Distinct x [] d = refl
count-Distinct x (y ∷ ys) d = elim (Bool-cases (x == y)) [
  | inl e ↦
      let same : x ≡ y = ground arith in
      let alone : holds x ys ≡ false = rw same d.0 in ground (arith, count-Distinct x ys d.1)
  | inr e ↦ ground (arith, count-Distinct x ys d.1)
]

module _ {K : Type 0} (string : K → Str) where
  unfoldable pub record_call : Call K → ChangeSet K → ChangeSet K
  record_call (node id) = record_node_id id
  record_call (edge id) = record_edge_id id
  record_call (node_object o) = record_node_object_id o
  record_call (triple s e k) = record_edge_triple string s e k
  record_call (triple_oid s e k) = record_edge_triple_by_object_id string s e k
  record_call (delete_nodes i x) = record_delete_nodes_by_kinds string i x
  record_call (delete_edges ks) = record_delete_relationships_by_kinds string ks
  record_call (fallback r) = record_fallback r
  record_call (incomplete r) = record_write_incomplete r

  -- The newest call comes first.
  unfoldable pub recorded : List (Call K) → ChangeSet K
  unfolding record_call
  recorded [] = new_change_set
  recorded (c ∷ cs) = record_call c (recorded cs)

module _ {K : Type 0} where
  -- The node ids of the calls.
  abbrev pub ids_called : List (Call K) → List ℕ
  ids_called [] = []
  ids_called (node id ∷ cs) = id ∷ ids_called cs
  ids_called (_ ∷ cs) = ids_called cs

  -- Every call is one of RecordWriteIncomplete.
  abbrev pub only_incomplete : List (Call K) → Bool
  only_incomplete [] = true
  only_incomplete (incomplete r ∷ cs) = only_incomplete cs
  only_incomplete (_ ∷ cs) = false

module _ {K : Type 0} (string : K → Str) where
  -- One entry for each key in every map.
  abbrev pub IsChangeSet : ChangeSet K → Type 0
  IsChangeSet c =
      Distinct c.node_ids
      × Distinct c.node_object_ids
      × Distinct c.edge_ids
      × Distinct (keys c.edge_triples)
      × Distinct (keys c.edge_triples_oid)
      × Distinct (keys c.node_kind_deletes)
      × Distinct (keys c.edge_kind_deletes)
      × Distinct c.fallbacks
      × Distinct c.write_incomplete

  record_call-IsChangeSet :
      (x : Call K) (c : ChangeSet K) → IsChangeSet c → IsChangeSet (record_call string x c)
  unfolding record_call record_node_id record_edge_id record_node_object_id record_edge_triple
      record_edge_triple_by_object_id record_delete_nodes_by_kinds
      record_delete_relationships_by_kinds record_fallback record_write_incomplete
  record_call-IsChangeSet (node id) c (a, b, d, e, f, g, i, j, l) =
      (add-Distinct id c.node_ids a, b, d, e, f, g, i, j, l)
  record_call-IsChangeSet (node_object o) c (a, b, d, e, f, g, i, j, l) =
      (a, add-Distinct o c.node_object_ids b, d, e, f, g, i, j, l)
  record_call-IsChangeSet (edge id) c (a, b, d, e, f, g, i, j, l) =
      (a, b, add-Distinct id c.edge_ids d, e, f, g, i, j, l)
  record_call-IsChangeSet (triple _ _ _) c (a, b, d, e, f, g, i, j, l) =
      (a, b, d, store-Distinct _ _ c.edge_triples e, f, g, i, j, l)
  record_call-IsChangeSet (triple_oid _ _ _) c (a, b, d, e, f, g, i, j, l) =
      (a, b, d, e, store-Distinct _ _ c.edge_triples_oid f, g, i, j, l)
  record_call-IsChangeSet (delete_nodes _ _) c (a, b, d, e, f, g, i, j, l) =
      (a, b, d, e, f, store-Distinct _ _ c.node_kind_deletes g, i, j, l)
  record_call-IsChangeSet (delete_edges _) c (a, b, d, e, f, g, i, j, l) =
      (a, b, d, e, f, g, store-Distinct _ _ c.edge_kind_deletes i, j, l)
  record_call-IsChangeSet (fallback r) c (a, b, d, e, f, g, i, j, l) =
      (a, b, d, e, f, g, i, add-Distinct r c.fallbacks j, l)
  record_call-IsChangeSet (incomplete r) c (a, b, d, e, f, g, i, j, l) =
      (a, b, d, e, f, g, i, j, add-Distinct r c.write_incomplete l)

  -- Whatever was recorded, every map has one entry for each key.
  pub recorded-IsChangeSet : (h : List (Call K)) → IsChangeSet (recorded string h)
  unfolding recorded keys
  recorded-IsChangeSet [] = (tt, tt, tt, tt, tt, tt, tt, tt, tt)
  recorded-IsChangeSet (x ∷ h) =
      record_call-IsChangeSet x (recorded string h) (recorded-IsChangeSet h)

  holds-node_ids :
      (h : List (Call K)) (x : ℕ) → holds x (recorded string h).node_ids ≡ holds x (ids_called h)
  unfolding recorded record_call record_node_id record_edge_id record_node_object_id
      record_edge_triple record_edge_triple_by_object_id record_delete_nodes_by_kinds
      record_delete_relationships_by_kinds record_fallback record_write_incomplete
  holds-node_ids [] x = refl
  holds-node_ids (node id ∷ h) x =
      holds-add x id (recorded string h).node_ids
      ∙ ap (λ b. nat_key.same x id || b) (holds-node_ids h x)
  holds-node_ids (edge _ ∷ h) x = holds-node_ids h x
  holds-node_ids (node_object _ ∷ h) x = holds-node_ids h x
  holds-node_ids (triple _ _ _ ∷ h) x = holds-node_ids h x
  holds-node_ids (triple_oid _ _ _ ∷ h) x = holds-node_ids h x
  holds-node_ids (delete_nodes _ _ ∷ h) x = holds-node_ids h x
  holds-node_ids (delete_edges _ ∷ h) x = holds-node_ids h x
  holds-node_ids (fallback _ ∷ h) x = holds-node_ids h x
  holds-node_ids (incomplete _ ∷ h) x = holds-node_ids h x

  -- NodeIDs lists the ids that RecordNodeID was called with, in ascending order, each once.
  pub node_ids-recorded :
      (h : List (Call K))
      → SortedFrom 0 (node_ids (recorded string h))
        × ((x : ℕ)
            → count x (node_ids (recorded string h)) ≡ (if holds x (ids_called h) then 1 else 0))
  unfolding node_ids
  node_ids-recorded h = (
    sort-SortedFrom (recorded string h).node_ids,
    λ x.
        count-sort x (recorded string h).node_ids
        ∙ count-Distinct x (recorded string h).node_ids (recorded-IsChangeSet h).0
        ∙ ap (λ b. if b then 1 else 0) (holds-node_ids h x),
  )

  -- A change set is empty exactly when nothing but RecordWriteIncomplete was called.
  pub empty-recorded : (h : List (Call K)) → empty (recorded string h) ≡ only_incomplete h
  unfolding recorded record_call empty record_node_id record_edge_id record_node_object_id
      record_edge_triple record_edge_triple_by_object_id record_delete_nodes_by_kinds
      record_delete_relationships_by_kinds record_fallback record_write_incomplete
  empty-recorded [] = refl
  empty-recorded (node id ∷ h) = ground (arith, nothing-add id (recorded string h).node_ids)
  empty-recorded (edge id ∷ h) = ground (arith, nothing-add id (recorded string h).edge_ids)
  empty-recorded (node_object o ∷ h) =
      ground (arith, nothing-add o (recorded string h).node_object_ids)
  empty-recorded (triple s e k ∷ h) = ground (
    arith,
    nothing-store (s, e, kind_name string k) (record { start = s; end_ = e; kind = k })
        (recorded string h).edge_triples,
  )
  empty-recorded (triple_oid s e k ∷ h) = ground (
    arith,
    nothing-store (s, e, kind_name string k) (record { start_oid = s; end_oid = e; kind = k })
        (recorded string h).edge_triples_oid,
  )
  empty-recorded (delete_nodes i x ∷ h) = ground (
    arith,
    nothing-store (kinds_key string i ++ bar ++ kinds_key string x)
        (record { include = i; exclude = x }) (recorded string h).node_kind_deletes,
  )
  empty-recorded (delete_edges ks ∷ h) =
      ground (arith, nothing-store (kinds_key string ks) ks (recorded string h).edge_kind_deletes)
  empty-recorded (fallback r ∷ h) = ground (arith, nothing-add r (recorded string h).fallbacks)
  empty-recorded (incomplete r ∷ h) = empty-recorded h
