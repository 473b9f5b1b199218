-- ===== src/Watermark/Trust/Converged.antt =====
-- What a convergence reading proves of the ledger it was taken from.
use blood_trail.Prelude.{ap, ℤ, pos, negsuc, ℕ, ◌≤◌, ◌≡◌, true, false, List, arith}
use blood_trail.Watermark.Ledger.{resolved_through}
use blood_trail.Watermark.Ledger.History.{Event, Bigints, claimed, run, resolved_through-contiguous}
use blood_trail.Watermark.Trust.{
  none_inflight, WatermarkReading, converged, unaccounted, watermark_converged_for,
  read_watermark_convergence,
}

none_left : (inflight : ℤ) → none_inflight inflight ≡ true → inflight ≡ pos 0
none_left (pos n) h = ap pos (ground arith)
none_left (negsuc n) h = cc

-- A reading that converges, after any calls on the ledger with values in the range of a PostgreSQL
-- bigint, proves that nothing is in flight and that
-- the calls account for every value up to PostgreSQL's counter.
pub converged-accounted :
    (h : List Event) (pg_counter : ℕ) (inflight : ℤ)
    → Bigints h
    → converged (read_watermark_convergence pg_counter inflight (run h)) ≡ true
    → (inflight ≡ pos 0) × ((x : ℕ) → x ≤ pg_counter → claimed h x ≡ true)
unfolding converged watermark_converged_for read_watermark_convergence
converged-accounted h pg_counter inflight b t =
    let first = none_left inflight (ground arith) in
    let same : pg_counter ≡ (resolved_through (run h)).0 = ground arith in
    (first, λ x p. (resolved_through-contiguous h b).0 x (ground arith))

-- A reading never both converges and reports a value that nobody accounts for.
converged-accounted_for : (r : WatermarkReading) → converged r ≡ true → unaccounted r ≡ false
unfolding converged watermark_converged_for unaccounted
converged-accounted_for r h = ground arith
