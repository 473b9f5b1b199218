-- ===== src/Snapshot/Store/Sound.antt =====
-- What a snapshot that passed the structural check is known to satisfy.
use blood_trail.Prelude.{ℕ, suc, ◌%◌, ◌^◌, ◌<◌, ◌≡◌, none, some, length, get_or}
use blood_trail.Snapshot.Store.{PropStore, Snapshot}
use blood_trail.Snapshot.Store.Validate.{validate_lengths, validate_snapshot_structure}
use blood_trail.Snapshot.Store.Partitions.{
  or_else-none, fail_if-none, Partitions, offsets64_sound, offsets32_sound, ascending_sound,
  below_sound, equal_of, length_of,
}
use blood_trail.Snapshot.Store.Props.{IsStored, stored_sound}

module _ {F : Type 0} where
  -- What every reader of the arrays of a snapshot relies on.
  pub record IsStructured (s : Snapshot F) : Type 0 where
    pub out_rows : Partitions s.out_offsets (length s.graph_ids) (length s.out_targets)
    pub in_rows : Partitions s.in_offsets (length s.graph_ids) (length s.out_targets)
    pub kind_rows : Partitions s.kind_offsets (length s.graph_ids) (length s.node_kinds % 2 ^ 32)
    pub out_aligned :
        (length s.out_kinds ≡ length s.out_targets) × (length s.out_edge_ids ≡ length s.out_targets)
    pub in_aligned :
        (length s.in_targets ≡ length s.out_targets)
        × (length s.in_kinds ≡ length s.out_targets)
        × (length s.in_edge_idx ≡ length s.out_targets)
    pub permuted : length s.edge_id_perm ≡ length s.out_targets
    pub ids_ascend :
        (i j : ℕ) → i < j → j < length s.graph_ids → get_or s.graph_ids i 0 < get_or s.graph_ids j 0
    pub out_nodes :
        (i : ℕ) → i < length s.out_targets → get_or s.out_targets i 0 < length s.graph_ids
    pub in_nodes : (i : ℕ) → i < length s.in_targets → get_or s.in_targets i 0 < length s.graph_ids
    pub in_edges :
        (i : ℕ) → i < length s.in_edge_idx → get_or s.in_edge_idx i 0 < length s.out_targets
    pub perm_edges :
        (i : ℕ) → i < length s.edge_id_perm → get_or s.edge_id_perm i 0 < length s.out_targets
    pub stored : (p : PropStore F) × (s.props ≡ some p) × IsStored p (length s.graph_ids)

  -- The lengths in one product, in the order of the table.
  abbrev Lengths : Snapshot F → Type 0
  Lengths s =
      (length s.out_kinds ≡ length s.out_targets)
      × (length s.out_edge_ids ≡ length s.out_targets)
      × (length s.in_targets ≡ length s.out_targets)
      × (length s.in_kinds ≡ length s.out_targets)
      × (length s.in_edge_idx ≡ length s.out_targets)
      × (length s.edge_id_perm ≡ length s.out_targets)
      × (length s.out_offsets ≡ suc (length s.graph_ids))
      × (length s.in_offsets ≡ suc (length s.graph_ids))
      × (length s.kind_offsets ≡ suc (length s.graph_ids))

  table_sound : (s : Snapshot F) → validate_lengths s ≡ none → Lengths s
  unfolding validate_lengths
  table_sound s h =
      let c = or_else-none _ _ h in
      let c1 = or_else-none _ _ c.1 in
      let c2 = or_else-none _ _ c1.1 in
      let c3 = or_else-none _ _ c2.1 in
      let c4 = or_else-none _ _ c3.1 in
      let c5 = or_else-none _ _ c4.1 in
      let c6 = or_else-none _ _ c5.1 in
      let c7 = or_else-none _ _ c6.1 in
      (
        equal_of _ _ _ c.0,
        equal_of _ _ _ c1.0,
        equal_of _ _ _ c2.0,
        equal_of _ _ _ c3.0,
        equal_of _ _ _ c4.0,
        equal_of _ _ _ c5.0,
        length_of _ _ _ c6.0,
        length_of _ _ _ c7.0,
        length_of _ _ _ c7.1,
      )

  -- A snapshot that passes the structural check has, for every node, rows of offsets that climb from
  -- 0 to the number of edges, arrays of one length for the edges of a side, strictly ascending node
  -- ids, and targets and edge indices in range. It has a property store, with a row of entries for
  -- every node, no name twice, entries whose name is registered, whose kind is known and whose bytes
  -- lie in the arena, and the entries of each node by rising property id. The kinds of nodes and the
  -- entries are counted modulo 2 ^ 32.
  pub validate_sound : (s : Snapshot F) → validate_snapshot_structure s ≡ none → IsStructured s
  unfolding validate_snapshot_structure
  validate_sound s h =
      let c = or_else-none _ _ h in
      let n = table_sound s c.0 in
      let c1 = or_else-none _ _ c.1 in
      let c2 = or_else-none _ _ c1.1 in
      let c3 = or_else-none _ _ c2.1 in
      let c4 = or_else-none _ _ c3.1 in
      let c5 = or_else-none _ _ c4.1 in
      let c6 = or_else-none _ _ c5.1 in
      let c7 = or_else-none _ _ c6.1 in
      let c8 = or_else-none _ _ c7.1 in
      record {
        out_rows = offsets64_sound _ _ _ n.6 c1.0;
        in_rows = offsets64_sound _ _ _ n.7 c2.0;
        kind_rows = offsets32_sound _ _ _ n.8 c3.0;
        out_aligned = (n.0, n.1);
        in_aligned = (n.2, n.3, n.4);
        permuted = n.5;
        ids_ascend = ascending_sound _ (fail_if-none _ _ c4.0);
        out_nodes = below_sound _ _ (fail_if-none _ _ c5.0);
        in_nodes = below_sound _ _ (fail_if-none _ _ c6.0);
        in_edges = below_sound _ _ (fail_if-none _ _ c7.0);
        perm_edges = below_sound _ _ (fail_if-none _ _ c8.0);
        stored = stored_sound _ _ c8.1;
      }
