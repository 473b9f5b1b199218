-- ===== src/Watermark/Ledger/Examples.antt =====
-- Runs of the ledger, and its theorems at them.
use blood_trail.Prelude.{
  ℕ, suc, ◌≤◌, ◌≡◌, refl, ◌⊎◌, ◌↔◌, true, false, List, [], ◌∷◌, arith, search, inc64,
}
use blood_trail.Watermark.Ledger.{
  resolve, rebase, resolved_through, insert_locked, advance_locked, absorb, edit,
}
use blood_trail.Watermark.Ledger.Runs.{accounted}
use blood_trail.Watermark.Ledger.Steps.{IsLedger}
use blood_trail.Watermark.Ledger.History.{
  Event, resolved, claimed, highest_resolved, apply, run, run-accounted,
  resolved_through-contiguous, rebase-exact_iff, run-IsLedger,
}

-- Values 1, 3, 4 and 6 are resolved out of order; 2 and 5 are still missing.
abbrev gaps : List Event
gaps = resolved 4 ∷ resolved 6 ∷ resolved 3 ∷ resolved 1 ∷ []

gaps_runs : run gaps ≡ record {
  through = 1;
  above = record { lo = 3; hi = 4 } ∷ record { lo = 6; hi = 6 } ∷ [];
  lost = false;
  highest = 6;
}
unfolding run apply resolve insert_locked advance_locked absorb edit search inc64
gaps_runs = refl

run-accounted_example : accounted (run gaps) 4 ≡ claimed gaps 4
run-accounted_example = run-accounted gaps (omega arith) (rw gaps_runs) 4

resolved_through-contiguous_example :
    ((x : ℕ) → x ≤ (resolved_through (run gaps)).0 → claimed gaps x ≡ true)
    × ((resolved_through (run gaps)).1 ≡ true
        → claimed gaps (suc (resolved_through (run gaps)).0) ≡ false)
resolved_through-contiguous_example = resolved_through-contiguous gaps (omega arith)

rebase-exact_iff_example :
    ((resolved_through (rebase (run gaps) 2)).1 ≡ true)
    ↔ (((resolved_through (run gaps)).1 ≡ true) ⊎ (highest_resolved gaps ≤ 2))
rebase-exact_iff_example = rebase-exact_iff gaps 2 (omega arith) (omega arith)

run-IsLedger_example : IsLedger (run gaps)
run-IsLedger_example = run-IsLedger gaps (omega arith)
