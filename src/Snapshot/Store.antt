-- ===== src/Snapshot/Store.antt =====
-- internal/engine/snapshot: snapshot.go (the CSR arrays of a Snapshot and its readers), props.go
-- (the entries of a PropStore) and validate.go (the structural check of a loaded file). The maps
-- and memo tables that are derived from these arrays are left out, and so are the values of
-- properties: a float64 is a parameter.
pub mod Validate
pub mod Partitions
pub mod Props
pub mod Sound
pub mod Reads
mod Examples
use blood_trail.Prelude.{
  ℕ, suc, ◌+◌, ◌-◌, ◌<◌, Bool, true, false, ◌&&◌, List, [], ◌∷◌, Option, none, some, ltb, leb, ◌==◌,
  if◌then◌else◌, length, get_or, take, drop, search, not, ℤ,
}

-- The kinds of a property value.
pub data PropKind : Type 0 where
  prop_null prop_false prop_true prop_number prop_string prop_array prop_object
        prop_number_non_canonical prop_unknown :
      PropKind

-- `num` is the float64 of a number.
pub record PropEntry (F : Type 0) : Type 0 where
  pub prop : ℕ
  pub kind : PropKind
  pub num : F
  pub ref : ℕ
  pub len : ℕ

-- A name is its bytes.
pub record PropStore (F : Type 0) : Type 0 where
  pub names : List (List ℕ)
  pub entries : List (PropEntry F)
  pub node_offsets : List ℕ
  pub arena : List ℕ

pub record Snapshot (F : Type 0) : Type 0 where
  pub graph_ids : List ℕ
  pub out_offsets : List ℕ
  pub out_targets : List ℕ
  pub out_kinds : List ℤ
  pub out_edge_ids : List ℕ
  pub in_offsets : List ℕ
  pub in_targets : List ℕ
  pub in_kinds : List ℤ
  pub in_edge_idx : List ℕ
  pub kind_offsets : List ℕ
  pub node_kinds : List ℤ
  pub edge_id_perm : List ℕ
  pub props : Option (PropStore F)

-- `xs[lo:hi]`
abbrev pub slice {ℓ} : {A : Type ℓ} → List A → ℕ → ℕ → List A
slice xs lo hi = take (hi - lo) (drop lo xs)

module _ {F : Type 0} where
  unfoldable pub node_count : Snapshot F → ℕ
  node_count s = length s.graph_ids

  unfoldable pub edge_count : Snapshot F → ℕ
  edge_count s = length s.out_targets

  -- Aligned target and kind slices.
  unfoldable pub out : Snapshot F → ℕ → List ℕ × List ℤ
  out s n =
      let lo = get_or s.out_offsets n 0 in
      let hi = get_or s.out_offsets (suc n) 0 in
      (slice s.out_targets lo hi, slice s.out_kinds lo hi)

  unfoldable pub in_ : Snapshot F → ℕ → List ℕ × List ℤ
  in_ s n =
      let lo = get_or s.in_offsets n 0 in
      let hi = get_or s.in_offsets (suc n) 0 in (slice s.in_targets lo hi, slice s.in_kinds lo hi)

  -- The database id of the edge at an index of the permutation.
  abbrev pub id_at : Snapshot F → ℕ → ℕ
  id_at s i = get_or s.out_edge_ids (get_or s.edge_id_perm i 0) 0

  unfoldable pub edge_by_id : Snapshot F → ℕ → Option ℕ
  edge_by_id s id =
      let n = length s.edge_id_perm in
      let i = search n (λ i. leb id (id_at s i)) in
      if ltb i n && id_at s i == id then some (get_or s.edge_id_perm i 0) else none

  -- `p.entries[lo:hi]` of a node.
  unfoldable pub node_entries : PropStore F → ℕ → List (PropEntry F)
  node_entries p n = slice p.entries (get_or p.node_offsets n 0) (get_or p.node_offsets (suc n) 0)

  abbrev pub prop_at : List (PropEntry F) → ℕ → ℕ
  prop_at [] i = 0
  prop_at (e ∷ es) ℕ.zero = e.prop
  prop_at (e ∷ es) (suc i) = prop_at es i

  abbrev pub entry_at : List (PropEntry F) → ℕ → Option (PropEntry F)
  entry_at [] i = none
  entry_at (e ∷ es) ℕ.zero = some e
  entry_at (e ∷ es) (suc i) = entry_at es i

  -- The binary search of PropStore.Value over a node's entries, up to the decoding of the entry.
  unfoldable pub find_entry : List (PropEntry F) → ℕ → Option (PropEntry F)
  find_entry es id =
      let i = search (length es) (λ i. leb id (prop_at es i)) in
      if leb (length es) i then none else if not (prop_at es i == id) then none else entry_at es i
