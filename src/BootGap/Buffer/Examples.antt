-- ===== src/BootGap/Buffer/Examples.antt =====
-- Runs of the boot gap buffer, and its theorems at them.
use blood_trail.Prelude.{ℕ, ◌≡◌, refl, true, false, List, [], ◌∷◌, map, none, some, Str}
use blood_trail.Changes.{ChangeSet, new_change_set, empty, key_count, has_fallback, sort_strings}
use blood_trail.Changes.Scope.{WriteScope, watermark_of}
use blood_trail.BootGap.Buffer.{
  take_entries, fallback_write, observe, observe_changes, observe_bump, append, append_counter,
  observe_abandoned, poison, activate,
}
use blood_trail.BootGap.Buffer.Bounds.{
  Call, activated, observed, abandoned, apply_call, run_calls, IsBuffer, run_calls-IsBuffer,
}
use blood_trail.BootGap.Buffer.Complete.{due, take_entries_complete}

abbrev bumped : ℕ → ChangeSet Str → WriteScope Str
bumped n c = record {
  changes = c;
  watermark = n;
  watermark_bumped = true;
  watermark_bump_failed = false;
}

-- Oldest last: a write before the activation, one of node 4, an abandoned one and an empty one.
abbrev boot : List (Call Str)
boot =
    observed (some (bumped 8 new_change_set))
    ∷ abandoned (some (bumped 7 new_change_set))
    ∷ observed (some (bumped 6 (record new_change_set { node_ids = 4 ∷ [] })))
    ∷ activated
    ∷ observed (some (bumped 5 new_change_set))
    ∷ []

boot_taken :
    ((take_entries (run_calls boot)).1 ≡ none)
    × (map (λ e. e.counter) (take_entries (run_calls boot)).0 ≡ 6 ∷ 7 ∷ 8 ∷ [])
    × ((run_calls boot).keys_held ≡ 1)
unfolding take_entries run_calls apply_call activate observe observe_changes observe_bump append
    append_counter observe_abandoned watermark_of empty key_count has_fallback
boot_taken = (refl, refl, refl)

fallback_poisons :
    (take_entries (
      run_calls (
        observed (some (bumped 9 (record new_change_set { fallbacks = (120 ∷ []) ∷ [] })))
        ∷ boot))).1
    ≡ some (fallback_write ((120 ∷ []) ∷ []))
unfolding take_entries run_calls apply_call activate observe observe_changes observe_bump append
    append_counter observe_abandoned watermark_of empty key_count has_fallback poison sort_strings
fallback_poisons = refl

take_entries_complete_example : map (λ e. e.counter) (take_entries (run_calls boot)).0 ≡ due boot
take_entries_complete_example = take_entries_complete boot boot_taken.0

run_calls-IsBuffer_example : IsBuffer (run_calls boot)
run_calls-IsBuffer_example = run_calls-IsBuffer boot
