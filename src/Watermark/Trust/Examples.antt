-- ===== src/Watermark/Trust/Examples.antt =====
-- Runs of the generations, and the theorems on trust at them.
use blood_trail.Prelude.{pos, ℕ, ◌≤◌, ◌≡◌, refl, true, List, [], ◌∷◌, arith, Str, search, inc64}
use blood_trail.Changes.Scope.{
  new_write_scope, mark_watermark_bump_failed, take_watermark_bump_failure,
}
use blood_trail.Watermark.Ledger.{
  insert_locked, advance_locked, absorb, edit, resolve, resolved_through,
}
use blood_trail.Watermark.Ledger.History.{resolved, claimed, run, apply}
use blood_trail.Watermark.Trust.{
  serving, max_watermark, note_watermark_bump_failure, settle_watermark_failure, adopt_gens,
  watermark_trusted_for, converged, watermark_converged_for, read_watermark_convergence,
}
use blood_trail.Watermark.Trust.Steps.{
  Event, opened, bump_failed, settled, load_begun, adopted, step, run_system, IsSystem, unsettled,
  run_system-IsSystem, trusted-settled,
}
use blood_trail.Watermark.Trust.Converged.{converged-accounted}

-- Oldest last: a scope fails twice, settles, a load begins, and is adopted.
abbrev healed : List Event
healed = adopted 0 ∷ load_begun ∷ settled 0 ∷ bump_failed 0 ∷ bump_failed 0 ∷ opened ∷ []

abbrev early : List Event
early = adopted 0 ∷ settled 0 ∷ load_begun ∷ bump_failed 0 ∷ opened ∷ []

healed_runs :
    ((run_system {K = Str} healed).gens
      ≡ record { dirty_gen = 1; settled_dirty_gen = 1; resolved_dirty_gen = 1 })
    × ((run_system {K = Str} early).gens
        ≡ record { dirty_gen = 1; settled_dirty_gen = 1; resolved_dirty_gen = 0 })
unfolding run_system step note_watermark_bump_failure settle_watermark_failure
    mark_watermark_bump_failed take_watermark_bump_failure new_write_scope adopt_gens max_watermark
    inc64
healed_runs = (refl, refl)

healed_trusted :
    watermark_trusted_for
      (run_system {K = Str} healed).gens.dirty_gen
      (run_system {K = Str} healed).gens.resolved_dirty_gen
      true
      serving
    ≡ true
unfolding watermark_trusted_for
healed_trusted = rw (healed_runs.0)

run_system-IsSystem_example : IsSystem 6 (run_system {K = Str} healed)
run_system-IsSystem_example = run_system-IsSystem {K = Str} healed (omega arith)

trusted-settled_example :
    (unsettled (run_system {K = Str} healed).scopes ≡ 0)
    × ((run_system {K = Str} healed).unscoped ≡ 0)
    × ((run_system {K = Str} healed).gens.resolved_dirty_gen
        ≡ (run_system {K = Str} healed).gens.settled_dirty_gen)
trusted-settled_example = trusted-settled Str healed true serving (omega arith) healed_trusted

two_resolved_converge :
    converged (read_watermark_convergence 2 (pos 0) (run (resolved 1 ∷ resolved 2 ∷ []))) ≡ true
unfolding converged watermark_converged_for read_watermark_convergence resolved_through run apply
    resolve insert_locked advance_locked absorb edit search inc64
two_resolved_converge = refl

converged-accounted_example :
    (pos 0 ≡ pos 0) × ((x : ℕ) → x ≤ 2 → claimed (resolved 1 ∷ resolved 2 ∷ []) x ≡ true)
converged-accounted_example =
    converged-accounted (resolved 1 ∷ resolved 2 ∷ []) 2 (pos 0) (omega arith) two_resolved_converge
