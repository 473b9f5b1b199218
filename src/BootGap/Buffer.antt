-- ===== src/BootGap/Buffer.antt =====
-- internal/engine/bootgap.go, bootGapBuffer: the writes that resolve while the snapshot file is
-- read. The mutex makes a method one step; the read of `active` before the
-- lock is part of it.
pub mod Bounds
pub mod Complete
mod Examples
use blood_trail.Prelude.{
  ℕ, ◌+◌, ◌^◌, Bool, true, false, List, [], ◌∷◌, ◌++◌, Option, none, some, ltb, leb, if◌then◌else◌,
  length, Str,
}
use blood_trail.Changes.{ChangeSet, empty, key_count, has_fallback}
use blood_trail.Changes.Scope.{WriteScope, watermark_of}

abbrev pub max_boot_gap_entries : ℕ
max_boot_gap_entries = 4096

abbrev pub max_boot_gap_keys : ℕ
max_boot_gap_keys = 2 ^ 18

-- The reasons of a poisoned buffer; the empty string is none.
pub data PoisonReason : Type 0 where
  nil_write_scope unbumped_write too_many_writes too_many_keys : PoisonReason
  fallback_write : List Str → PoisonReason

-- `cs` is none for a write with nothing to replay.
pub record BootGapEntry (K : Type 0) : Type 0 where
  pub counter : ℕ
  pub cs : Option (ChangeSet K)

pub record BootGapBuffer (K : Type 0) : Type 0 where
  pub active : Bool
  pub entries : List (BootGapEntry K)
  pub keys_held : ℕ
  pub poisoned : Option PoisonReason

-- The first reason is kept.
abbrev pub first_reason : Option PoisonReason → PoisonReason → Option PoisonReason
first_reason none reason = some reason
first_reason (some first) reason = some first

module _ {K : Type 0} where
  -- The zero value.
  abbrev pub new_buffer : BootGapBuffer K
  new_buffer = record { active = false; entries = []; keys_held = 0; poisoned = none }

  unfoldable pub activate : BootGapBuffer K → BootGapBuffer K
  activate b = record b { active = true }

  unfoldable pub deactivate : BootGapBuffer K → BootGapBuffer K
  deactivate b = record b { active = false; entries = []; keys_held = 0 }

  unfoldable pub poison : PoisonReason → BootGapBuffer K → BootGapBuffer K
  poison reason b = record b { poisoned = first_reason b.poisoned reason }

  -- `cs` and the entry of it are added where there is room for them.
  unfoldable pub append : ℕ → Option (ChangeSet K) → BootGapBuffer K → BootGapBuffer K
  unfolding poison
  append counter none b =
      if leb max_boot_gap_entries (length b.entries)
      then poison too_many_writes b
      else record b { entries = b.entries ++ record { counter = counter; cs = none } ∷ [] }
  append counter (some c) b =
      if leb max_boot_gap_entries (length b.entries)
      then poison too_many_writes b
      else if ltb max_boot_gap_keys (b.keys_held + key_count c)
      then poison too_many_keys b
      else record b {
        keys_held = b.keys_held + key_count c;
        entries = b.entries ++ record { counter = counter; cs = some c } ∷ [];
      }

  -- The change set of an entry: nil where there is nothing to replay.
  abbrev pub to_replay : ChangeSet K → Option (ChangeSet K)
  to_replay c = if empty c then none else some c

  -- `observe` of an active buffer from the test of the bump on.
  unfoldable pub observe_bump : Option ℕ → ChangeSet K → BootGapBuffer K → BootGapBuffer K
  unfolding append poison
  observe_bump none c b = if empty c then b else poison unbumped_write b
  observe_bump (some counter) c b = append counter (to_replay c) b

  -- `observe` of an active buffer from the test of the fallbacks on.
  unfoldable pub observe_changes :
      Option (List Str) → WriteScope K → BootGapBuffer K → BootGapBuffer K
  unfolding observe_bump poison
  observe_changes (some reasons) s b = poison (fallback_write reasons) b
  observe_changes none s b = observe_bump (watermark_of s) s.changes b

  unfoldable pub observe : Option (WriteScope K) → BootGapBuffer K → BootGapBuffer K
  unfolding observe_changes poison
  observe none b = if b.active then poison nil_write_scope b else b
  observe (some s) b = if b.active then observe_changes (has_fallback s.changes) s b else b

  unfoldable pub append_counter : Option ℕ → BootGapBuffer K → BootGapBuffer K
  unfolding append
  append_counter none b = b
  append_counter (some counter) b = append counter none b

  unfoldable pub observe_abandoned : Option (WriteScope K) → BootGapBuffer K → BootGapBuffer K
  unfolding append_counter
  observe_abandoned none b = b
  observe_abandoned (some s) b = if b.active then append_counter (watermark_of s) b else b

  -- The entries and the reason, and the buffer that is left.
  unfoldable pub take_entries :
      BootGapBuffer K → List (BootGapEntry K) × Option PoisonReason × BootGapBuffer K
  take_entries b = (b.entries, b.poisoned, record b { active = false; entries = []; keys_held = 0 })

  -- A copy of what take_entries would return; nothing changes.
  unfoldable pub peek : BootGapBuffer K → List (BootGapEntry K) × Option PoisonReason
  peek b = (b.entries, b.poisoned)
