-- ===== src/Watermark/Refusal/Examples.antt =====
-- Files that are refused and one that is not, and the theorem on them.
use blood_trail.Prelude.{◌<◌, ◌≡◌, ◌≢◌, ◌⊎◌, ◌↔◌, refl, none, some}
use blood_trail.Watermark.Refusal.{
  StartState, Stamp, file_refusal, refusal_at_start, inserted_since_file, counter_behind_file,
  start_state_unknown, inserted_behind, counter_behind, lineage_changed,
}
use blood_trail.Watermark.Refusal.Cases.{Admissible, SameLineage, file_refusal-none}

abbrev stamp_9 : Stamp
stamp_9 = record { watermark = 9; node_id_seq = 40; edge_id_seq = 70 }

abbrev start_9 : StartState
start_9 = record { counter = 9; node_seq = 40; edge_seq = 70 }

file_refusal-none_example :
    ((file_refusal 5 stamp_9 5 (some start_9) ≡ none)
      ↔ ((at : StartState) × (some start_9 ≡ some at) × Admissible 5 stamp_9 5 at))
    × ((file_refusal 5 stamp_9 5 (some start_9) ≡ some start_state_unknown)
        ↔ (SameLineage 5 5 × (some start_9 ≡ none)))
    × ((file_refusal 5 stamp_9 5 (some start_9) ≡ some counter_behind)
        ↔ ((at : StartState) × (some start_9 ≡ some at) × SameLineage 5 5 × (at.counter < 9)))
    × ((file_refusal 5 stamp_9 5 (some start_9) ≡ some inserted_behind) ↔ (
        (at : StartState) × (some start_9 ≡ some at)
        × SameLineage 5 5
        × (at.counter ≡ 9)
        × ((at.node_seq ≢ 40) ⊎ (at.edge_seq ≢ 70))))
file_refusal-none_example = file_refusal-none 5 5 stamp_9 (some start_9)

moved_refused :
    (file_refusal 5 stamp_9 5 (some (record start_9 { edge_seq = 71 })) ≡ some inserted_behind)
    × (file_refusal 5 stamp_9 5 (some (record start_9 { counter = 8 })) ≡ some counter_behind)
    × (file_refusal 5 stamp_9 6 (some start_9) ≡ some lineage_changed)
unfolding file_refusal refusal_at_start inserted_since_file counter_behind_file
moved_refused = (refl, refl, refl)
