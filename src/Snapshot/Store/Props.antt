-- ===== src/Snapshot/Store/Props.antt =====
-- What a property store that passed validatePropStore is known to satisfy.
use blood_trail.Prelude.{
  ap, sym, ◌∙◌, ◌≢◌, ◌⊎◌, inl, inr, ℕ, zero, suc, ◌+◌, ◌%◌, ◌^◌, ◌≤◌, ◌<◌, ◌≡◌, refl, true, false,
  List, [], ◌∷◌, Option, none, some, ◌==◌, arith, length, get_or, not, Bool-cases,
}
use mathlib.Core.Path.{subst}
use mathlib.Core.Option.{some-injective}
use blood_trail.Snapshot.Store.{
  PropKind, prop_string, prop_array, prop_object, prop_unknown, PropStore, PropEntry, node_entries,
  prop_at, entry_at,
}
use blood_trail.Snapshot.Store.Validate.{
  fail_if, validate_offsets32, out_of_order, validate_order, validate_prop_store, wrong_length,
  name_twice, entry_order, repeated_name, validate_entries, same_name, holds_name, in_arena,
  is_known, validate_entry,
}
use blood_trail.Snapshot.Store.Partitions.{
  or_else-none, fail_if-none, Partitions, offsets32_sound, length_of,
}

same_name_self : (x : List ℕ) → same_name x x ≡ true
same_name_self [] = refl
same_name_self (a ∷ x) = ground (arith, same_name_self x)

apart : (x y : List ℕ) → same_name x y ≡ false → x ≢ y
apart x y h e = let same = same_name_self y in cc

unseen :
    (seen names : List (List ℕ))
    → repeated_name seen names ≡ false
    → (x : List ℕ) → holds_name seen x ≡ true
    → (i : ℕ) → i < length names
    → x ≢ get_or names i []
unseen seen [] h x m i p e = absurd (omega arith)
unseen seen (n ∷ ns) h x m zero p e =
    let fresh : holds_name seen n ≡ false = ground arith in
    let known : holds_name seen n ≡ true = sym (ap (holds_name seen) e) ∙ m in cc
unseen seen (n ∷ ns) h x m (suc i) p e =
    unseen (n ∷ seen) ns (ground arith) x (ground arith) i (omega arith) e

names_apart :
    (seen names : List (List ℕ))
    → repeated_name seen names ≡ false
    → (i j : ℕ) → i < j
    → j < length names
    → get_or names i [] ≢ get_or names j []
names_apart seen [] h i j p q = absurd (omega arith)
names_apart seen (n ∷ ns) h i zero p q = absurd (omega arith)
names_apart seen (n ∷ ns) h zero (suc j) p q =
    unseen (n ∷ seen) ns (ground arith) n (rw (same_name_self n) refl) j (omega arith)
names_apart seen (n ∷ ns) h (suc i) (suc j) p q =
    names_apart (n ∷ seen) ns (ground arith) i j (omega arith) (omega arith)

-- The kinds whose value is a span of the arena.
abbrev pub HasBytes : PropKind → Type 0
HasBytes k = (k ≡ prop_string) ⊎ (k ≡ prop_array) ⊎ (k ≡ prop_object)

bytes_in_arena : (k : PropKind) → HasBytes k → in_arena k ≡ true
bytes_in_arena k (inl e) = ap in_arena e
bytes_in_arena k (inr (inl e)) = ap in_arena e
bytes_in_arena k (inr (inr e)) = ap in_arena e

module _ {F : Type 0} where
  -- An entry has a registered name and a known kind, and a value in the arena stays inside it.
  abbrev pub EntryInside : ℕ → ℕ → PropEntry F → Type 0
  EntryInside names arena_len e =
      (e.prop < names) × (HasBytes e.kind → e.ref + e.len ≤ arena_len) × (e.kind ≢ prop_unknown)

  entry_sound :
      (names arena_len : ℕ) (e : PropEntry F)
      → validate_entry names arena_len e ≡ none
      → EntryInside names arena_len e
  entry_sound names arena_len e h = (
    ground arith,
    λ b. let stored = bytes_in_arena e.kind b in ground arith,
    λ q. let unknown : is_known e.kind ≡ false = ap is_known q in ground arith,
  )

  entries_sound :
      (names arena_len : ℕ) (es : List (PropEntry F))
      → validate_entries names arena_len es ≡ none
      → (i : ℕ) (e : PropEntry F) → entry_at es i ≡ some e
      → EntryInside names arena_len e
  entries_sound names arena_len [] h i e at = cc
  entries_sound names arena_len (x ∷ es) h zero e at =
      let c = or_else-none (validate_entry names arena_len x) _ h in
      subst (EntryInside names arena_len) (some-injective _ _ at)
        (entry_sound names arena_len x c.0)
  entries_sound names arena_len (x ∷ es) h (suc i) e at =
      let c = or_else-none (validate_entry names arena_len x) _ h in
      entries_sound names arena_len es c.1 i e at

  prop_at_below :
      (e : PropEntry F) (es : List (PropEntry F)) (j : ℕ)
      → out_of_order (e ∷ es) ≡ false
      → j < length es
      → e.prop < prop_at es j
  prop_at_below e [] j h p = absurd (omega arith)
  prop_at_below e (e' ∷ es) zero h p = ground arith
  prop_at_below e (e' ∷ es) (suc j) h p =
      ground (arith, prop_at_below e' es j (ground arith) (omega arith))

  order_next :
      (e : PropEntry F) (es : List (PropEntry F))
      → out_of_order (e ∷ es) ≡ false
      → out_of_order es ≡ false
  order_next e [] h = refl
  order_next e (e' ∷ es) h = ground arith

  props_rise :
      (es : List (PropEntry F))
      → out_of_order es ≡ false
      → (i j : ℕ) → i < j
      → j < length es
      → prop_at es i < prop_at es j
  props_rise [] h i j p q = absurd (omega arith)
  props_rise (e ∷ es) h i zero p q = absurd (omega arith)
  props_rise (e ∷ es) h zero (suc j) p q = prop_at_below e es j h (omega arith)
  props_rise (e ∷ es) h (suc i) (suc j) p q =
      props_rise es (order_next e es h) i j (omega arith) (omega arith)

  -- What the readers of a property store for n nodes rely on: rows of entries that partition them,
  -- with their number taken modulo 2 ^ 32, names that stand once, entries that stay inside the
  -- names and the arena, and a node's entries by rising property id.
  pub record IsStored (p : PropStore F) (n : ℕ) : Type 0 where
    pub entry_rows : Partitions p.node_offsets n (length p.entries % 2 ^ 32)
    pub names_once :
        (i j : ℕ) → i < j → j < length p.names → get_or p.names i [] ≢ get_or p.names j []
    pub entries_inside :
        (i : ℕ) (e : PropEntry F)
        → entry_at p.entries i ≡ some e
        → EntryInside (length p.names) (length p.arena) e
    pub entries_rise :
        (v : ℕ)
        → v < n
        → (i j : ℕ) → i < j
        → j < length (node_entries p v)
        → prop_at (node_entries p v) i < prop_at (node_entries p v) j

  order_sound :
      (p : PropStore F) (n : ℕ)
      → validate_order p n ≡ none
      → (v : ℕ) → v < n
      → out_of_order (node_entries p v) ≡ false
  order_sound p zero h v q = absurd (omega arith)
  order_sound p (suc n) h v q =
      let c =
        or_else-none (validate_order p n) (fail_if (out_of_order (node_entries p n)) entry_order)
          h in
      elim (Bool-cases (v == n)) [
        | inl e ↦
            let same : v ≡ n = ground arith in
            rw same (fail_if-none (out_of_order (node_entries p n)) entry_order c.1)
        | inr e ↦ order_sound p n c.0 v (ground arith)
      ]

  pub prop_store_sound :
      (p : PropStore F) (n : ℕ) → validate_prop_store (some p) n ≡ none → IsStored p n
  unfolding validate_prop_store
  prop_store_sound p n h =
      let c = or_else-none (fail_if (not (length p.node_offsets == n + 1)) wrong_length) _ h in
      let c1 = or_else-none (validate_offsets32 p.node_offsets (length p.entries)) _ c.1 in
      let c2 = or_else-none (fail_if (repeated_name [] p.names) name_twice) _ c1.1 in
      let c3 = or_else-none (validate_entries (length p.names) (length p.arena) p.entries) _ c2.1 in
      record {
        entry_rows =
            offsets32_sound p.node_offsets n (length p.entries) (length_of _ _ wrong_length c.0)
              c1.0;
        names_once = names_apart [] p.names (fail_if-none _ name_twice c2.0);
        entries_inside = entries_sound (length p.names) (length p.arena) p.entries c3.0;
        entries_rise = λ v q. props_rise (node_entries p v) (order_sound p n c3.1 v q);
      }

  -- A store is missing where the check says so.
  pub stored_sound :
      (o : Option (PropStore F)) (n : ℕ)
      → validate_prop_store o n ≡ none
      → (p : PropStore F) × (o ≡ some p) × IsStored p n
  unfolding validate_prop_store
  stored_sound none n h = cc
  stored_sound (some p) n h = (p, refl, prop_store_sound p n h)
