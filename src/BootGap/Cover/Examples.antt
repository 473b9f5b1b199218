-- ===== src/BootGap/Cover/Examples.antt =====
-- Runs of `bootGapCoveredAt`, and its theorems at them.
use blood_trail.Prelude.{ℕ, ◌≡◌, refl, ◌↔◌, List, [], ◌∷◌, arith, sort, inc64}
use blood_trail.BootGap.Cover.{
  covered, hole, contradiction, no_reason, accounted_twice, already_claimed, stamped_ahead, scan,
  boot_gap_covered_at,
}
use blood_trail.BootGap.Cover.Verdicts.{Covers, Contradicts, covered_iff, contradiction_iff}

abbrev gap : List ℕ
gap = 9 ∷ 7 ∷ 8 ∷ 12 ∷ []

gap_runs :
    (boot_gap_covered_at 6 9 gap ≡ (covered, no_reason))
    × (boot_gap_covered_at 5 9 gap ≡ (hole, no_reason))
    × (boot_gap_covered_at 7 9 gap ≡ (contradiction, already_claimed))
    × (boot_gap_covered_at 6 9 (7 ∷ gap) ≡ (contradiction, accounted_twice))
    × (boot_gap_covered_at 10 9 gap ≡ (contradiction, stamped_ahead))
unfolding boot_gap_covered_at scan sort inc64
gap_runs = (refl, refl, refl, refl, refl)

covered_iff_example : ((boot_gap_covered_at 6 9 gap).0 ≡ covered) ↔ Covers 6 9 gap
covered_iff_example = covered_iff 6 9 gap (omega arith) (omega arith) (omega arith)

contradiction_iff_example : ((boot_gap_covered_at 7 9 gap).0 ≡ contradiction) ↔ Contradicts 7 9 gap
contradiction_iff_example = contradiction_iff 7 9 gap
