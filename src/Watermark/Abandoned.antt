-- ===== src/Watermark/Abandoned.antt =====
-- internal/engine/watermark.go, ResolveAbandonedWrite: a write that is known to have no effect.
pub mod Once
mod Examples
use blood_trail.Prelude.{ℕ, ℤ, Bool, true, false, Option, none, some}
use blood_trail.Changes.Scope.{WriteScope, watermark_of}
use blood_trail.BootGap.Buffer.{BootGapBuffer, observe_abandoned}
use blood_trail.Watermark.Ledger.{Ledger}
use blood_trail.Watermark.Trust.{Gens, advance_watermark, settle_watermark_failure}

-- The parts of the engine that the call touches, and whether a rebuild has been asked for.
pub record Tracked (K : Type 0) : Type 0 where
  pub applied : Ledger
  pub inflight : ℤ
  pub boot_gap : BootGapBuffer K
  pub gens : Gens
  pub rebuild_requested : Bool

module _ {K : Type 0} where
  abbrev pub advance_bumped : Option ℕ → Tracked K → Tracked K
  advance_bumped none y = y
  advance_bumped (some counter) y = record y {
    applied = (advance_watermark counter (y.applied, y.inflight)).0;
    inflight = (advance_watermark counter (y.applied, y.inflight)).1;
  }

  abbrev pub settled_to :
      Tracked K → Option (WriteScope K) × Gens × Bool → Option (WriteScope K) × Tracked K
  settled_to y (scope, g, true) = (scope, record y { gens = g; rebuild_requested = true })
  settled_to y (scope, g, false) = (scope, record y { gens = g })

  unfoldable pub resolve_abandoned_write :
      Option (WriteScope K) → Tracked K → Option (WriteScope K) × Tracked K
  resolve_abandoned_write none y = (none, y)
  resolve_abandoned_write (some s) y =
      let advanced = advance_bumped (watermark_of s) y in
      settled_to (record advanced { boot_gap = observe_abandoned (some s) advanced.boot_gap })
        (settle_watermark_failure (some s) advanced.gens)
