-- ===== src/Watermark/Abandoned/Examples.antt =====
-- An abandoned write whose bump failed, and the theorem on it.
use blood_trail.Prelude.{pos, ◌≡◌, refl, true, false, some, Str, inc64}
use blood_trail.Changes.{new_change_set}
use blood_trail.Changes.Scope.{WriteScope, watermark_of, take_watermark_bump_failure}
use blood_trail.BootGap.Buffer.{new_buffer, observe_abandoned}
use blood_trail.Watermark.Ledger.{new_ledger}
use blood_trail.Watermark.Trust.{settle_watermark_failure}
use blood_trail.Watermark.Abandoned.{Tracked, resolve_abandoned_write}
use blood_trail.Watermark.Abandoned.Once.{settle_count, resolve_abandoned_write_once}

abbrev failed_scope : WriteScope Str
failed_scope = record {
  changes = new_change_set;
  watermark = 0;
  watermark_bumped = false;
  watermark_bump_failed = true;
}

abbrev one_noted : Tracked Str
one_noted = record {
  applied = new_ledger;
  inflight = pos 0;
  boot_gap = new_buffer;
  gens = record { dirty_gen = 1; settled_dirty_gen = 0; resolved_dirty_gen = 0 };
  rebuild_requested = false;
}

failed_settles : (resolve_abandoned_write (some failed_scope) one_noted).1 ≡ record one_noted {
  gens = record { dirty_gen = 1; settled_dirty_gen = 1; resolved_dirty_gen = 0 };
  rebuild_requested = true;
}
unfolding resolve_abandoned_write settle_watermark_failure take_watermark_bump_failure watermark_of
    observe_abandoned inc64
failed_settles = refl

resolve_abandoned_write_once_example :
    ((resolve_abandoned_write (some failed_scope) one_noted).1.gens.settled_dirty_gen
      ≡ settle_count true 0)
    × ((resolve_abandoned_write
          (resolve_abandoned_write (some failed_scope) one_noted).0
          (resolve_abandoned_write (some failed_scope) one_noted).1).1.gens
        ≡ (resolve_abandoned_write (some failed_scope) one_noted).1.gens)
resolve_abandoned_write_once_example = resolve_abandoned_write_once failed_scope one_noted
