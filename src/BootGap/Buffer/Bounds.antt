-- ===== src/BootGap/Buffer/Bounds.antt =====
-- The bounds on a buffer, after any sequence of calls.
use blood_trail.Prelude.{
  ℕ, ◌+◌, ◌≤◌, ◌≡◌, refl, Bool, true, false, List, [], ◌∷◌, ◌++◌, Option, none, some, ltb, leb,
  if◌then◌else◌, length, length-append, arith, Str, inl, inr, Bool-cases,
}
use blood_trail.Changes.{ChangeSet, empty, key_count, has_fallback}
use blood_trail.Changes.Scope.{WriteScope, watermark_of}
use blood_trail.BootGap.Buffer.{
  max_boot_gap_entries, max_boot_gap_keys, PoisonReason, nil_write_scope, unbumped_write,
  too_many_writes, too_many_keys, fallback_write, BootGapEntry, BootGapBuffer, new_buffer, activate,
  deactivate, poison, append, to_replay, observe_bump, observe_changes, append_counter, observe,
  observe_abandoned, take_entries,
}

pub if-keeps {ℓ κ} :
    {A : Type ℓ} (P : A → Type κ) (t : Bool) {x y : A} → P x → P y → P (if t then x else y)
if-keeps P true p q = p
if-keeps P false p q = q

-- A call on the buffer.
pub data Call (K : Type 0) : Type 0 where
  activated deactivated taken : Call K
  observed abandoned : Option (WriteScope K) → Call K

module _ {K : Type 0} where
  abbrev pub keys_of : Option (ChangeSet K) → ℕ
  keys_of none = 0
  keys_of (some c) = key_count c

  abbrev pub keys_of_all : List (BootGapEntry K) → ℕ
  keys_of_all [] = 0
  keys_of_all (e ∷ es) = keys_of e.cs + keys_of_all es

  unfoldable pub apply_call : Call K → BootGapBuffer K → BootGapBuffer K
  apply_call activated b = activate b
  apply_call deactivated b = deactivate b
  apply_call taken b = (take_entries b).2
  apply_call (observed s) b = observe s b
  apply_call (abandoned s) b = observe_abandoned s b

  -- The newest call comes first.
  unfoldable pub run_calls : List (Call K) → BootGapBuffer K
  unfolding apply_call
  run_calls [] = new_buffer
  run_calls (c ∷ cs) = apply_call c (run_calls cs)

  pub record IsBuffer (b : BootGapBuffer K) : Type 0 where
    pub few_entries : length b.entries ≤ max_boot_gap_entries
    pub keys_are : b.keys_held ≡ keys_of_all b.entries
    pub few_keys : b.keys_held ≤ max_boot_gap_keys

  keys_of_all-append :
      (es : List (BootGapEntry K)) (e : BootGapEntry K)
      → keys_of_all (es ++ e ∷ []) ≡ keys_of_all es + keys_of e.cs
  keys_of_all-append [] e = omega arith
  keys_of_all-append (x ∷ es) e = omega (arith, keys_of_all-append es e)

  poison-IsBuffer : (r : PoisonReason) (b : BootGapBuffer K) → IsBuffer b → IsBuffer (poison r b)
  unfolding poison
  poison-IsBuffer r b v = record {
    few_entries = v.few_entries;
    keys_are = v.keys_are;
    few_keys = v.few_keys;
  }

  -- An entry for which there is room.
  entry_fits :
      (e : BootGapEntry K) (b : BootGapBuffer K)
      → IsBuffer b
      → leb max_boot_gap_entries (length b.entries) ≡ false
      → ltb max_boot_gap_keys (b.keys_held + keys_of e.cs) ≡ false
      → IsBuffer
          (record b { keys_held = b.keys_held + keys_of e.cs; entries = b.entries ++ e ∷ [] })
  entry_fits e b v f g = record {
    few_entries = ground (arith, length-append b.entries (e ∷ []), v.few_entries);
    keys_are = ground (arith, keys_of_all-append b.entries e, v.keys_are);
    few_keys = ground arith;
  }

  append-IsBuffer :
      (n : ℕ) (cs : Option (ChangeSet K)) (b : BootGapBuffer K)
      → IsBuffer b
      → IsBuffer (append n cs b)
  unfolding append
  append-IsBuffer n none b v = elim (Bool-cases (leb max_boot_gap_entries (length b.entries))) [
    | inl f ↦ rw f (poison-IsBuffer too_many_writes b v)
    | inr f ↦
        let fits =
          entry_fits (record { counter = n; cs = none }) b v f (ground (arith, v.few_keys)) in
        rw f (record {
          few_entries = fits.few_entries;
          keys_are = ground (arith, fits.keys_are);
          few_keys = v.few_keys;
        })
  ]
  append-IsBuffer n (some c) b v = elim (Bool-cases (leb max_boot_gap_entries (length b.entries))) [
    | inl f ↦ rw f (poison-IsBuffer too_many_writes b v)
    | inr f ↦ elim (Bool-cases (ltb max_boot_gap_keys (b.keys_held + key_count c))) [
      | inl g ↦ rw (f, g) (poison-IsBuffer too_many_keys b v)
      | inr g ↦ rw (f, g) (entry_fits (record { counter = n; cs = some c }) b v f g)
    ]
  ]

  observe_bump-IsBuffer :
      (o : Option ℕ) (c : ChangeSet K) (b : BootGapBuffer K)
      → IsBuffer b
      → IsBuffer (observe_bump o c b)
  unfolding observe_bump
  observe_bump-IsBuffer (some n) c b v = append-IsBuffer n (to_replay c) b v
  observe_bump-IsBuffer none c b v =
      if-keeps IsBuffer (empty c) v (poison-IsBuffer unbumped_write b v)

  observe_changes-IsBuffer :
      (o : Option (List Str)) (s : WriteScope K) (b : BootGapBuffer K)
      → IsBuffer b
      → IsBuffer (observe_changes o s b)
  unfolding observe_changes
  observe_changes-IsBuffer (some r) s b v = poison-IsBuffer (fallback_write r) b v
  observe_changes-IsBuffer none s b v = observe_bump-IsBuffer (watermark_of s) s.changes b v

  observe-IsBuffer :
      (s : Option (WriteScope K)) (b : BootGapBuffer K) → IsBuffer b → IsBuffer (observe s b)
  unfolding observe
  observe-IsBuffer none b v = if-keeps IsBuffer b.active (poison-IsBuffer nil_write_scope b v) v
  observe-IsBuffer (some s) b v =
      if-keeps IsBuffer b.active (observe_changes-IsBuffer (has_fallback s.changes) s b v) v

  append_counter-IsBuffer :
      (o : Option ℕ) (b : BootGapBuffer K) → IsBuffer b → IsBuffer (append_counter o b)
  unfolding append_counter
  append_counter-IsBuffer none b v = v
  append_counter-IsBuffer (some n) b v = append-IsBuffer n none b v

  abandoned-IsBuffer :
      (s : Option (WriteScope K)) (b : BootGapBuffer K)
      → IsBuffer b
      → IsBuffer (observe_abandoned s b)
  unfolding observe_abandoned
  abandoned-IsBuffer none b v = v
  abandoned-IsBuffer (some s) b v =
      if-keeps IsBuffer b.active (append_counter-IsBuffer (watermark_of s) b v) v

  no_entries :
      (t : Bool) (p : Option PoisonReason)
      → IsBuffer (record { active = t; entries = []; keys_held = 0; poisoned = p })
  no_entries t p = record { few_entries = omega arith; keys_are = refl; few_keys = omega arith }

  -- Whatever was called, the buffer holds at most 4096 entries and 2 ^ 18 keys, and counts the keys
  -- of its entries.
  pub run_calls-IsBuffer : (h : List (Call K)) → IsBuffer (run_calls h)
  unfolding run_calls apply_call activate deactivate take_entries
  run_calls-IsBuffer [] = no_entries false none
  run_calls-IsBuffer (activated ∷ h) =
      let v = run_calls-IsBuffer h in
      record { few_entries = v.few_entries; keys_are = v.keys_are; few_keys = v.few_keys }
  run_calls-IsBuffer (deactivated ∷ h) = no_entries false (run_calls h).poisoned
  run_calls-IsBuffer (taken ∷ h) = no_entries false (run_calls h).poisoned
  run_calls-IsBuffer (observed s ∷ h) = observe-IsBuffer s (run_calls h) (run_calls-IsBuffer h)
  run_calls-IsBuffer (abandoned s ∷ h) = abandoned-IsBuffer s (run_calls h) (run_calls-IsBuffer h)
