-- ===== src/BootGap/Cover.antt =====
-- internal/engine/bootgap.go, bootGapCoveredAt: whether a snapshot file and the buffered writes
-- together reproduce PostgreSQL.
pub mod Scan
pub mod Verdicts
mod Examples
use blood_trail.Prelude.{
  ℕ, Bool, true, false, not, ◌&&◌, ◌||◌, List, [], ◌∷◌, Option, none, some, ltb, leb, ◌==◌,
  if◌then◌else◌, inc64, sort,
}

pub data BootGapVerdict : Type 0 where
  covered hole contradiction : BootGapVerdict

-- The reason that goes with a verdict, "" where there is none.
pub data Reason : Type 0 where
  no_reason stamped_ahead accounted_twice already_claimed : Reason

-- `i > 0 && c == counters[i-1]`
abbrev pub repeats : Option ℕ → ℕ → Bool
repeats none c = false
repeats (some p) c = c == p

-- What the switch makes of `next` and of `hole` at a counter that is no contradiction.
abbrev pub next_after : ℕ → ℕ → ℕ → ℕ
next_after pg next c = if ltb pg c then next else if not (c == next) then inc64 c else inc64 next

abbrev pub hole_after : ℕ → ℕ → Bool → ℕ → Bool
hole_after pg next gap c = if ltb pg c then gap else if not (c == next) then true else gap

-- The loop over the sorted counters, after `previous`, and the final test.
pub scan : ℕ → ℕ → Option ℕ → ℕ → Bool → List ℕ → BootGapVerdict × Reason
scan file pg previous next gap [] =
    if gap || not (next == inc64 pg) then (hole, no_reason) else (covered, no_reason)
scan file pg previous next gap (c ∷ cs) =
    let rest = scan file pg (some c) (next_after pg next c) (hole_after pg next gap c) cs in
    if repeats previous c
    then (contradiction, accounted_twice)
    else if leb c file
    then (contradiction, already_claimed)
    else rest

pub boot_gap_covered_at : ℕ → ℕ → List ℕ → BootGapVerdict × Reason
boot_gap_covered_at file pg counters =
    if ltb pg file
    then (contradiction, stamped_ahead)
    else scan file pg none (inc64 file) false (sort counters)
