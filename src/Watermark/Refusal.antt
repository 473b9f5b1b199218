-- ===== src/Watermark/Refusal.antt =====
-- internal/engine/watermark.go: startState, insertedSinceFile, counterBehindFile and fileRefusal.
-- A lineage is a uuid, of which only equality and the test for zero are used; it is a number here.
pub mod Cases
mod Examples
use blood_trail.Prelude.{
  ℕ, Bool, true, false, ◌&&◌, ◌||◌, Option, none, some, ltb, ◌==◌, if◌then◌else◌, not,
}

-- Where PostgreSQL stood at the start; a sequence position is an int64 that is never negative.
pub record StartState : Type 0 where
  pub counter : ℕ
  pub node_seq : ℕ
  pub edge_seq : ℕ

-- The stamp of a snapshot file (snapshot.Stamp).
pub record Stamp : Type 0 where
  pub watermark : ℕ
  pub node_id_seq : ℕ
  pub edge_id_seq : ℕ

pub data Refused : Type 0 where
  lineage_changed start_state_unknown counter_behind inserted_behind : Refused

unfoldable pub inserted_since_file : Stamp → Option StartState → Bool
inserted_since_file stamp none = false
inserted_since_file stamp (some at) =
    at.counter == stamp.watermark
    && (not (at.node_seq == stamp.node_id_seq) || not (at.edge_seq == stamp.edge_id_seq))

unfoldable pub counter_behind_file : Stamp → Option StartState → Bool
counter_behind_file stamp none = false
counter_behind_file stamp (some at) = ltb at.counter stamp.watermark

-- The checks that need the start state.
unfoldable pub refusal_at_start : Stamp → Option StartState → Option Refused
unfolding inserted_since_file counter_behind_file
refusal_at_start stamp none = some start_state_unknown
refusal_at_start stamp (some at) =
    if counter_behind_file stamp (some at)
    then some counter_behind
    else if inserted_since_file stamp (some at)
    then some inserted_behind
    else none

-- none is the empty reason.
unfoldable pub file_refusal : ℕ → Stamp → ℕ → Option StartState → Option Refused
unfolding refusal_at_start
file_refusal lineage stamp pg_lineage at_start =
    if lineage == 0 || not (lineage == pg_lineage)
    then some lineage_changed
    else refusal_at_start stamp at_start
