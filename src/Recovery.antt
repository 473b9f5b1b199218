-- ===== src/Recovery.antt =====
-- internal/engine/compact.go and apply.go: when a compaction may be adopted and when a rebuild is
-- launched again. A segment is compared by its pointer, which is a number here.
pub mod Prefix
mod Examples
use blood_trail.Prelude.{
  ℕ, Bool, true, false, ◌&&◌, ◌||◌, List, [], ◌∷◌, Option, none, some, ltb, ◌==◌, if◌then◌else◌,
  not, length, drop,
}
use blood_trail.Watermark.Trust.{EngineState, serving, fallback}

-- Every captured segment is where it was.
abbrev pub begins_with : List ℕ → List ℕ → Bool
begins_with current [] = true
begins_with [] (s ∷ captured) = false
begins_with (c ∷ current) (s ∷ captured) = c == s && begins_with current captured

-- The segments after the captured ones; none is the answer false.
unfoldable pub segments_after : List ℕ → List ℕ → Option (List ℕ)
segments_after current captured =
    if ltb (length current) (length captured)
    then none
    else if not (begins_with current captured)
    then none
    else some (drop (length captured) current)

unfoldable pub compaction_threshold_exceeded : ℕ → ℕ → ℕ → ℕ → Bool
compaction_threshold_exceeded compact_entries compact_bytes entries bytes =
    if ltb 0 compact_entries && ltb compact_entries entries
    then true
    else if ltb 0 compact_bytes && ltb compact_bytes bytes
    then true
    else false

pub data RelaunchKind : Type 0 where
  relaunch_none relaunch_trust relaunch_recovery : RelaunchKind

unfoldable pub relaunch_after_adoption : EngineState → ℕ → ℕ → RelaunchKind
relaunch_after_adoption fallback settled_gen resolved_gen = relaunch_recovery
relaunch_after_adoption serving settled_gen resolved_gen =
    if not (settled_gen == resolved_gen) then relaunch_trust else relaunch_none
