-- ===== src/Changes/Kept.antt =====
-- Criteria that were recorded are read back, whatever else is recorded.
use blood_trail.Prelude.{
  suc, ◌≢◌, false, some, if◌then◌else◌, length, add, lookup-store_ne, ◌≡◌, ◌⊎◌, inl, inr, refl, sym,
  ap, ◌∙◌, true, ◌||◌, or_swap, List, [], ◌∷◌, ◌++◌, map, Option, Str, keys, keys-store, store,
  lookup, lookup-store_self, holds, str_key, Bool-cases,
}
use mathlib.Core.Path.{subst}
use blood_trail.Changes.Keys.{AllNames, names, pair_key-injective, pair_key-names}
use blood_trail.Changes.History.{
  Call, node, edge, node_object, triple, triple_oid, delete_nodes, delete_edges, fallback,
  incomplete, record_call, recorded,
}
use blood_trail.Changes.{
  record_node_id, record_edge_id, record_node_object_id, record_edge_triple,
  record_edge_triple_by_object_id, record_delete_relationships_by_kinds, record_fallback,
  record_write_incomplete, ChangeSet, NodeKindDeleteCriteria, kinds_key, bar, str_le, sort_strings,
  insert_str, record_delete_nodes_by_kinds,
}
use blood_trail.Changes.Readers.{criteria_at, node_kind_criteria}

abbrev pub In : {A : Type 0} → A → List A → Type 0
In x [] = ⊥
In x (y ∷ ys) = (x ≡ y) ⊎ In x ys

holds-insert_str :
    (z x : Str) (xs : List Str) → holds z (insert_str x xs) ≡ (str_key.same z x || holds z xs)
unfolding insert_str
holds-insert_str z x [] = refl
holds-insert_str z x (y ∷ ys) = elim (Bool-cases (str_le x y)) [
  | inl e ↦ rw e
  | inr e ↦
      rw (e, holds-insert_str z x ys) (or_swap (str_key.same z y) (str_key.same z x) (holds z ys))
]

holds-sort_strings : (z : Str) (xs : List Str) → holds z (sort_strings xs) ≡ holds z xs
unfolding sort_strings
holds-sort_strings z [] = refl
holds-sort_strings z (x ∷ xs) =
    holds-insert_str z x (sort_strings xs)
    ∙ ap (λ b. str_key.same z x || b) (holds-sort_strings z xs)

In-map :
    {A : Type 0} (f : Str → A) (z : Str) (xs : List Str) → holds z xs ≡ true → In (f z) (map f xs)
In-map f z [] h = cc
In-map f z (x ∷ xs) h = elim (Bool-cases (str_key.same z x)) [
  | inl e ↦ inl (ap f (str_key.same_eq z x e))
  | inr e ↦ inr (In-map f z xs (sym (ap (λ b. b || holds z xs) e) ∙ h))
]

-- The map from keys to criteria reads back what stands under a key.
module _ {κ} {V : Type κ} where
  lookup-holds :
      (k : Str) (v : V) (m : List (Str × V)) → lookup k m ≡ some v → holds k (keys m) ≡ true
  unfolding keys
  lookup-holds k v [] h = cc
  lookup-holds k v ((k', w) ∷ m) h = elim (Bool-cases (str_key.same k k')) [
    | inl e ↦ rw e refl
    | inr e ↦ rw e (lookup-holds k v m (sym (ap (λ b. if b then some w else lookup k m) e) ∙ h))
  ]

length-maps {ℓ κ} :
    {A : Type ℓ} {B : Type κ} (f g : A → B) (xs : List A) → length (map f xs) ≡ length (map g xs)
length-maps f g [] = refl
length-maps f g (x ∷ xs) = ap suc (length-maps f g xs)

add_again : (k : Str) (ks : List Str) → holds k ks ≡ true → add k ks ≡ ks
add_again k [] h = cc
add_again k (x ∷ ks) h = elim (Bool-cases (str_key.same k x)) [
  | inl e ↦ rw e refl
  | inr e ↦ rw e (ap (λ t. x ∷ t) (add_again k ks (sym (ap (λ b. b || holds k ks) e) ∙ h)))
]

other_key : (k k' : Str) → k ≢ k' → str_key.same k k' ≡ false
other_key k k' h = elim (Bool-cases (str_key.same k k')) [
  | inl e ↦ absurd (h (str_key.same_eq k k' e))
  | inr e ↦ e
]

module _ {K : Type 0} (string : K → Str) (include exclude : List (Option K)) where
  -- Calls none of which deletes nodes by kinds of the same names.
  abbrev pub Elsewhere : List (Call K) → Type 0
  Elsewhere [] = Unit {0}
  Elsewhere (delete_nodes i x ∷ h) =
      AllNames (names string i)
      × AllNames (names string x)
      × ((names string i ≢ names string include) ⊎ (names string x ≢ names string exclude))
      × Elsewhere h
  Elsewhere (_ ∷ h) = Elsewhere h

  abbrev pub wanted : NodeKindDeleteCriteria K
  wanted = record { include = include; exclude = exclude }

  abbrev key : Str
  key = kinds_key string include ++ bar ++ kinds_key string exclude

  criteria_found :
      (c : ChangeSet K)
      → lookup key c.node_kind_deletes ≡ some wanted
      → In wanted (node_kind_criteria c)
  unfolding node_kind_criteria
  criteria_found c h =
      let m = c.node_kind_deletes in
      let present = holds-sort_strings key (keys m) ∙ lookup-holds key wanted m h in
      subst (λ y. In y (map (λ k. criteria_at (lookup k m)) (sort_strings (keys m))))
        (ap criteria_at h)
        (In-map (λ k. criteria_at (lookup k m)) key (sort_strings (keys m)) present)

  kept_later :
      (later past : List (Call K))
      → AllNames (names string include)
      → AllNames (names string exclude)
      → Elsewhere later
      → lookup key
          (recorded string (later ++ delete_nodes include exclude ∷ past)).node_kind_deletes
        ≡ some wanted
  unfolding recorded record_call record_node_id record_edge_id record_node_object_id
      record_edge_triple record_edge_triple_by_object_id record_delete_nodes_by_kinds
      record_delete_relationships_by_kinds record_fallback record_write_incomplete
  kept_later [] past a b w = lookup-store_self key wanted (recorded string past).node_kind_deletes
  kept_later (node _ ∷ h) past a b w = kept_later h past a b w
  kept_later (edge _ ∷ h) past a b w = kept_later h past a b w
  kept_later (node_object _ ∷ h) past a b w = kept_later h past a b w
  kept_later (triple _ _ _ ∷ h) past a b w = kept_later h past a b w
  kept_later (triple_oid _ _ _ ∷ h) past a b w = kept_later h past a b w
  kept_later (delete_edges _ ∷ h) past a b w = kept_later h past a b w
  kept_later (fallback _ ∷ h) past a b w = kept_later h past a b w
  kept_later (incomplete _ ∷ h) past a b w = kept_later h past a b w
  kept_later (delete_nodes i x ∷ h) past a b (a', b', w, rest) =
      let apart : key ≢ kinds_key string i ++ bar ++ kinds_key string x = λ e.
        let same = pair_key-injective string include exclude i x a b a' b' e in
        elim w [ inl n ↦ n (sym same.0) | inr n ↦ n (sym same.1) ] in
      lookup-store_ne key _ (record { include = i; exclude = x })
        (recorded string (h ++ delete_nodes include exclude ∷ past)).node_kind_deletes
        (other_key key _ apart)
      ∙ kept_later h past a b rest

  -- The criteria of a call of RecordDeleteNodesByKinds are among those read after any further calls,
  -- where none of these deletes nodes by kinds whose sorted names are the same, and no name is empty
  -- or holds a comma or a bar. One more call with kinds of the same sorted names adds no criteria.
  pub node_kind_criteria_kept :
      (later past : List (Call K))
      → AllNames (names string include)
      → AllNames (names string exclude)
      → Elsewhere later
      → In wanted
          (node_kind_criteria (recorded string (later ++ delete_nodes include exclude ∷ past)))
        × ((i x : List (Option K))
            → names string i ≡ names string include
            → names string x ≡ names string exclude
            → length (
                node_kind_criteria (
                  recorded string
                    (delete_nodes i x ∷ later ++ delete_nodes include exclude ∷ past)))
              ≡ length (
                  node_kind_criteria
                    (recorded string (later ++ delete_nodes include exclude ∷ past))))
  unfolding recorded record_call record_delete_nodes_by_kinds node_kind_criteria
  node_kind_criteria_kept later past a b w =
      let c = recorded string (later ++ delete_nodes include exclude ∷ past) in
      let m = c.node_kind_deletes in
      let found = kept_later later past a b w in
      (
        criteria_found c found,
        λ i x e e'.
            let y : NodeKindDeleteCriteria K = record { include = i; exclude = x } in
            let same : kinds_key string i ++ bar ++ kinds_key string x ≡ key =
              pair_key-names string i x include exclude e e' in
            let again : keys (store key y m) ≡ keys m =
              keys-store key y m ∙ add_again key (keys m) (lookup-holds key wanted m found) in
            ap
              (λ k. length (
                map (λ j. criteria_at (lookup j (store k y m)))
                  (sort_strings (keys (store k y m)))))
              same
            ∙ ap
                (λ ks. length (map (λ j. criteria_at (lookup j (store key y m))) (sort_strings ks)))
                again
            ∙ length-maps (λ j. criteria_at (lookup j (store key y m)))
                (λ j. criteria_at (lookup j m)) (sort_strings (keys m)),
      )
