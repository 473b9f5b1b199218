-- ===== src/Recovery/Examples.antt =====
-- Stacks of segments, and the theorem on them.
use blood_trail.Prelude.{ℕ, ◌≡◌, ◌↔◌, refl, true, List, [], ◌∷◌, ◌++◌, none, some}
use blood_trail.Watermark.Trust.{serving, fallback}
use blood_trail.Recovery.{
  segments_after, compaction_threshold_exceeded, relaunch_after_adoption, relaunch_trust,
  relaunch_recovery,
}
use blood_trail.Recovery.Prefix.{segments_after_iff}

abbrev stack : List ℕ
stack = 4 ∷ 7 ∷ 9 ∷ []

stacks :
    (segments_after (4 ∷ 7 ∷ 9 ∷ []) (4 ∷ 7 ∷ []) ≡ some (9 ∷ []))
    × (segments_after (4 ∷ 8 ∷ 9 ∷ []) (4 ∷ 7 ∷ []) ≡ none)
    × (compaction_threshold_exceeded 0 5 100 6 ≡ true)
    × (relaunch_after_adoption serving 2 1 ≡ relaunch_trust)
    × (relaunch_after_adoption fallback 1 1 ≡ relaunch_recovery)
unfolding segments_after compaction_threshold_exceeded relaunch_after_adoption
stacks = (refl, refl, refl, refl, refl)

segments_after_iff_example :
    (segments_after stack (4 ∷ 7 ∷ []) ≡ some (9 ∷ [])) ↔ (stack ≡ (4 ∷ 7 ∷ []) ++ 9 ∷ [])
segments_after_iff_example = segments_after_iff stack (4 ∷ 7 ∷ []) (9 ∷ [])
