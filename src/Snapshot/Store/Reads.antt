-- ===== src/Snapshot/Store/Reads.antt =====
-- The two binary searches of the store: EdgeByID over the permutation of the edges, and
-- PropStore.Value over the entries of a node.
use blood_trail.Prelude.{
  ℕ, zero, suc, ◌<◌, ◌≡◌, Bool, List, [], ◌∷◌, none, some, ltb, leb, ◌==◌, arith, length, get_or,
  inl, inr, ◌↔◌, Bool-cases, search, Ascends, search-first, sym, ap, ◌∙◌,
}
use mathlib.Core.Option.{some-injective}
use blood_trail.Snapshot.Store.{
  PropStore, PropEntry, Snapshot, id_at, edge_by_id, node_entries, prop_at, entry_at, find_entry,
}
use blood_trail.Snapshot.Store.Validate.{validate_prop_store}
use blood_trail.Snapshot.Store.Props.{prop_store_sound}

-- A search for a key among strictly rising keys.
module _ (key : ℕ → ℕ) (n : ℕ) (up : (i j : ℕ) → i < j → j < n → key i < key j) (id : ℕ) where
  at_least : ℕ → Bool
  at_least i = leb id (key i)

  at_least-Ascends : Ascends n at_least
  unfolding at_least
  at_least-Ascends k m p q h = elim (Bool-cases (k == m)) [
    | inl e ↦ let same : k ≡ m = ground arith in rw (sym same) h
    | inr e ↦ let low = up k m (ground arith) q in ground arith
  ]

  pub search_finds : (i : ℕ) → i < n → key i ≡ id → search n (λ k. leb id (key k)) ≡ i
  unfolding at_least
  search_finds i p h =
      let (le, low, high) = search-first n (λ k. leb id (key k)) at_least-Ascends in
      let j : ℕ = search n (λ k. leb id (key k)) in
      elim (Bool-cases (ltb i j)) [
        | inl e ↦ let below = low i (ground arith) in absurd (ground arith)
        | inr e ↦ elim (Bool-cases (ltb j i)) [
          | inl e' ↦
              let above = high j (omega arith) (ground arith) in
              let rise = up j i (ground arith) p in absurd (ground arith)
          | inr e' ↦ ground arith
        ]
      ]

module _ {F : Type 0} where
  -- The permutation lists the edges by rising database id.
  abbrev pub IdsRise : Snapshot F → Type 0
  IdsRise s = (i j : ℕ) → i < j → j < length s.edge_id_perm → id_at s i < id_at s j

  -- Where the permutation lists the edges by rising database id, EdgeByID answers k exactly when
  -- some slot of the permutation holds k and the edge there has that id.
  pub edge_by_id_iff :
      (s : Snapshot F) (id k : ℕ)
      → IdsRise s
      → (edge_by_id s id ≡ some k) ↔ (
          (i : ℕ) × (i < length s.edge_id_perm)
          × (id_at s i ≡ id)
          × (get_or s.edge_id_perm i 0 ≡ k))
  unfolding edge_by_id
  edge_by_id_iff s id k up = (
    λ h.
        let i : ℕ = search (length s.edge_id_perm) (λ i. leb id (id_at s i)) in
        (i, ground arith, ground arith, ground arith),
    λ (i, p, e, q). rw (search_finds (id_at s) (length s.edge_id_perm) up id i p e) (ground arith),
  )

  entry_at_prop :
      (es : List (PropEntry F)) (i : ℕ) (e : PropEntry F)
      → entry_at es i ≡ some e
      → (i < length es) × (prop_at es i ≡ e.prop)
  entry_at_prop [] i e h = cc
  entry_at_prop (x ∷ es) zero e h = (omega arith, ap (λ e. e.prop) (some-injective x e h))
  entry_at_prop (x ∷ es) (suc i) e h = let r = entry_at_prop es i e h in (omega (arith, r.0), r.1)

  -- A binary search finds the entry of a property exactly when one of the entries is of it.
  find_entry_iff :
      (es : List (PropEntry F)) (id : ℕ) (e : PropEntry F)
      → ((i j : ℕ) → i < j → j < length es → prop_at es i < prop_at es j)
      → (find_entry es id ≡ some e) ↔ ((i : ℕ) × (entry_at es i ≡ some e) × (e.prop ≡ id))
  unfolding find_entry
  find_entry_iff es id e o = (
    λ h.
        let i : ℕ = search (length es) (λ i. leb id (prop_at es i)) in
        let found : entry_at es i ≡ some e = ground arith in
        (i, found, sym (entry_at_prop es i e found).1 ∙ ground arith),
    λ (i, p, q).
        let r = entry_at_prop es i e p in
        rw (search_finds (prop_at es) (length es) o id i r.0 (r.1 ∙ q)) (ground arith),
  )

  -- In a property store that passed the check, Value decodes an entry exactly when it is the
  -- node's entry of that property.
  pub find_entry_valid :
      (p : PropStore F) (n : ℕ)
      → validate_prop_store (some p) n ≡ none
      → (v : ℕ) → v < n
      → (id : ℕ) (e : PropEntry F)
      → (find_entry (node_entries p v) id ≡ some e)
        ↔ ((i : ℕ) × (entry_at (node_entries p v) i ≡ some e) × (e.prop ≡ id))
  find_entry_valid p n h v q id e =
      find_entry_iff (node_entries p v) id e ((prop_store_sound p n h).entries_rise v q)
