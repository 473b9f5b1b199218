-- ===== src/Snapshot/Store/Validate.antt =====
-- internal/engine/snapshot/validate.go: validateSnapshotStructure and what it calls, with one
-- constructor of `Corrupt` for each message; none is the nil error.
use blood_trail.Prelude.{
  ℕ, suc, ◌+◌, ◌%◌, ◌^◌, Bool, true, false, ◌&&◌, ◌||◌, List, [], ◌∷◌, Option, none, some, ltb, leb,
  ◌==◌, length, not,
}
use blood_trail.Snapshot.Store.{
  PropKind, prop_string, prop_array, prop_object, prop_unknown, PropEntry, PropStore, Snapshot,
  node_entries,
}

pub data Corrupt : Type 0 where
  wrong_length offsets_empty offsets_start offsets_backwards offsets_end ids_not_ascending
        target_range edge_range props_missing name_twice entry_name entry_arena entry_kind
        entry_order :
      Corrupt

-- The first error of a sequence of checks.
infixr 25 ◌or_else◌
abbrev pub ◌or_else◌ : Option Corrupt → Option Corrupt → Option Corrupt
none or_else next = next
(some e) or_else next = some e

abbrev pub fail_if : Bool → Corrupt → Option Corrupt
fail_if true e = some e
fail_if false e = none

abbrev pub backwards : ℕ → List ℕ → Bool
backwards previous [] = false
backwards previous (o ∷ os) = ltb o previous || backwards o os

abbrev pub last_from : ℕ → List ℕ → ℕ
last_from o [] = o
last_from o (p ∷ os) = last_from p os

unfoldable pub validate_offsets64 : List ℕ → ℕ → Option Corrupt
validate_offsets64 [] indexed = some offsets_empty
validate_offsets64 (o ∷ os) indexed =
    fail_if (not (o == 0)) offsets_start
    or_else fail_if (backwards o os) offsets_backwards
    or_else fail_if (not (last_from o os == indexed)) offsets_end

-- The length is converted to a uint32 before it is compared.
unfoldable pub validate_offsets32 : List ℕ → ℕ → Option Corrupt
validate_offsets32 [] indexed = some offsets_empty
validate_offsets32 (o ∷ os) indexed =
    fail_if (not (o == 0)) offsets_start
    or_else fail_if (backwards o os) offsets_backwards
    or_else fail_if (not (last_from o os == indexed % 2 ^ 32)) offsets_end

-- Some item is not above the one before it.
abbrev pub not_ascending : List ℕ → Bool
not_ascending [] = false
not_ascending (x ∷ []) = false
not_ascending (x ∷ y ∷ ys) = leb y x || not_ascending (y ∷ ys)

abbrev pub any_from : ℕ → List ℕ → Bool
any_from n [] = false
any_from n (x ∷ xs) = leb n x || any_from n xs

abbrev pub same_name : List ℕ → List ℕ → Bool
same_name [] [] = true
same_name (a ∷ xs) (b ∷ ys) = a == b && same_name xs ys
same_name _ _ = false

abbrev pub holds_name : List (List ℕ) → List ℕ → Bool
holds_name [] x = false
holds_name (n ∷ ns) x = same_name n x || holds_name ns x

-- Some name occurs twice; the map of the names seen so far is the list of them.
abbrev pub repeated_name : List (List ℕ) → List (List ℕ) → Bool
repeated_name seen [] = false
repeated_name seen (n ∷ ns) = holds_name seen n || repeated_name (n ∷ seen) ns

-- The kinds whose value lies in the arena.
abbrev pub in_arena : PropKind → Bool
in_arena prop_string = true
in_arena prop_array = true
in_arena prop_object = true
in_arena _ = false

abbrev pub is_known : PropKind → Bool
is_known prop_unknown = false
is_known _ = true

module _ {F : Type 0} where
  -- One round of the loop over the entries.
  abbrev pub validate_entry : ℕ → ℕ → PropEntry F → Option Corrupt
  validate_entry names arena_len e =
      fail_if (leb names e.prop) entry_name
      or_else fail_if (in_arena e.kind && ltb arena_len (e.ref + e.len)) entry_arena
      or_else fail_if (not (is_known e.kind)) entry_kind

  abbrev pub validate_entries : ℕ → ℕ → List (PropEntry F) → Option Corrupt
  validate_entries names arena_len [] = none
  validate_entries names arena_len (e ∷ es) =
      validate_entry names arena_len e or_else validate_entries names arena_len es

  abbrev pub out_of_order : List (PropEntry F) → Bool
  out_of_order [] = false
  out_of_order (e ∷ []) = false
  out_of_order (e ∷ e' ∷ es) = leb e'.prop e.prop || out_of_order (e' ∷ es)

  -- The entries of each node below n, from the first node on.
  abbrev pub validate_order : PropStore F → ℕ → Option Corrupt
  validate_order p ℕ.zero = none
  validate_order p (suc n) =
      validate_order p n or_else fail_if (out_of_order (node_entries p n)) entry_order

  unfoldable pub validate_prop_store : Option (PropStore F) → ℕ → Option Corrupt
  validate_prop_store none n = some props_missing
  validate_prop_store (some p) n =
      fail_if (not (length p.node_offsets == n + 1)) wrong_length
      or_else validate_offsets32 p.node_offsets (length p.entries)
      or_else fail_if (repeated_name [] p.names) name_twice
      or_else validate_entries (length p.names) (length p.arena) p.entries
      or_else validate_order p n

  -- The table of expected lengths.
  unfoldable pub validate_lengths : Snapshot F → Option Corrupt
  validate_lengths s =
      let n = length s.graph_ids in
      let e = length s.out_targets in
      fail_if (not (length s.out_kinds == e)) wrong_length
      or_else fail_if (not (length s.out_edge_ids == e)) wrong_length
      or_else fail_if (not (length s.in_targets == e)) wrong_length
      or_else fail_if (not (length s.in_kinds == e)) wrong_length
      or_else fail_if (not (length s.in_edge_idx == e)) wrong_length
      or_else fail_if (not (length s.edge_id_perm == e)) wrong_length
      or_else fail_if (not (length s.out_offsets == n + 1)) wrong_length
      or_else fail_if (not (length s.in_offsets == n + 1)) wrong_length
      or_else fail_if (not (length s.kind_offsets == n + 1)) wrong_length

  unfoldable pub validate_snapshot_structure : Snapshot F → Option Corrupt
  validate_snapshot_structure s =
      let n = length s.graph_ids in
      let e = length s.out_targets in
      validate_lengths s
      or_else validate_offsets64 s.out_offsets e
      or_else validate_offsets64 s.in_offsets e
      or_else validate_offsets32 s.kind_offsets (length s.node_kinds)
      or_else fail_if (not_ascending s.graph_ids) ids_not_ascending
      or_else fail_if (any_from n s.out_targets) target_range
      or_else fail_if (any_from n s.in_targets) target_range
      or_else fail_if (any_from e s.in_edge_idx) edge_range
      or_else fail_if (any_from e s.edge_id_perm) edge_range
      or_else validate_prop_store s.props n
