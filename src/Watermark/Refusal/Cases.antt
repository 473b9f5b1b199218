-- ===== src/Watermark/Refusal/Cases.antt =====
-- Which snapshot files are let through.
use blood_trail.Prelude.{ℕ, ◌≤◌, ◌<◌, ◌≡◌, ◌≢◌, ◌↔◌, ◌⊎◌, Option, none, some, arith, refl}
use blood_trail.Watermark.Refusal.{
  start_state_unknown, counter_behind, inserted_behind, StartState, Stamp, file_refusal,
  refusal_at_start, inserted_since_file, counter_behind_file,
}

-- What a file that is not refused guarantees.
abbrev pub Admissible : ℕ → Stamp → ℕ → StartState → Type 0
Admissible lineage stamp pg_lineage at =
    (lineage ≢ 0)
    × (lineage ≡ pg_lineage)
    × (stamp.watermark ≤ at.counter)
    × ((stamp.watermark < at.counter)
        ⊎ ((at.node_seq ≡ stamp.node_id_seq) × (at.edge_seq ≡ stamp.edge_id_seq)))

-- The lineage is known and is PostgreSQL's.
abbrev pub SameLineage : ℕ → ℕ → Type 0
SameLineage lineage pg_lineage = (lineage ≢ 0) × (lineage ≡ pg_lineage)

-- A file is not refused exactly when the start state is known, its lineage is not zero and is
-- PostgreSQL's, and the counter was past the stamp at the start, or at it with both id sequences
-- where the stamp says. It is refused for an unknown start exactly when the lineage is right and
-- the start state is not known, for the counter exactly when that was known and below the stamp,
-- and for inserted rows exactly when it was at the stamp with a sequence elsewhere.
pub file_refusal-none :
    (lineage pg_lineage : ℕ) (stamp : Stamp) (start : Option StartState)
    → ((file_refusal lineage stamp pg_lineage start ≡ none)
        ↔ ((at : StartState) × (start ≡ some at) × Admissible lineage stamp pg_lineage at))
      × ((file_refusal lineage stamp pg_lineage start ≡ some start_state_unknown)
          ↔ (SameLineage lineage pg_lineage × (start ≡ none)))
      × ((file_refusal lineage stamp pg_lineage start ≡ some counter_behind) ↔ (
          (at : StartState) × (start ≡ some at)
          × SameLineage lineage pg_lineage
          × (at.counter < stamp.watermark)))
      × ((file_refusal lineage stamp pg_lineage start ≡ some inserted_behind) ↔ (
          (at : StartState) × (start ≡ some at)
          × SameLineage lineage pg_lineage
          × (at.counter ≡ stamp.watermark)
          × ((at.node_seq ≢ stamp.node_id_seq) ⊎ (at.edge_seq ≢ stamp.edge_id_seq))))
unfolding file_refusal refusal_at_start inserted_since_file counter_behind_file
file_refusal-none lineage pg_lineage stamp none = (
  (λ h. absurd (ground arith), λ (at, e, a). cc),
  ground arith,
  (λ h. absurd (ground arith), λ (at, e, l, c). cc),
  (λ h. absurd (ground arith), λ (at, e, l, c, q). cc),
)
file_refusal-none lineage pg_lineage stamp (some at) = (
  (λ h. (at, refl, ground arith), λ (at', e, a). ground arith),
  ground arith,
  (λ h. (at, refl, ground arith, ground arith), λ (at', e, l, c). ground arith),
  (λ h. (at, refl, ground arith, ground arith, ground arith), λ (at', e, l, c, q). ground arith),
)
