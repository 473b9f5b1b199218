-- ===== src/Watermark/Abandoned/Once.antt =====
-- A failed bump is settled once.
use blood_trail.Prelude.{ℕ, ◌≡◌, refl, ap, ◌∙◌, Bool, true, false, Option, none, some, inc64}
use blood_trail.Changes.Scope.{WriteScope, watermark_of, take_watermark_bump_failure}
use blood_trail.Watermark.Trust.{Gens, settle_watermark_failure, settle_taken}
use blood_trail.Watermark.Abandoned.{Tracked, advance_bumped, settled_to, resolve_abandoned_write}

-- The settled generation that a scope's mark calls for.
abbrev pub settle_count : Bool → ℕ → ℕ
settle_count true n = inc64 n
settle_count false n = n

abbrev counted : Bool → Gens → Gens
counted t g = record g { settled_dirty_gen = settle_count t g.settled_dirty_gen }

module _ {K : Type 0} where
  advance-gens : (o : Option ℕ) (y : Tracked K) → (advance_bumped o y).gens ≡ y.gens
  advance-gens none y = refl
  advance-gens (some n) y = refl

  settled_by :
      (s : WriteScope K) (y : Tracked K) (t : Bool)
      → (settled_to y (settle_taken (s, t) y.gens)).1.gens ≡ counted t y.gens
  settled_by s y true = refl
  settled_by s y false = refl

  scope_after :
      (s : WriteScope K) (y : Tracked K) (t : Bool)
      → (settled_to y (settle_taken (s, t) y.gens)).0 ≡ some s
  scope_after s y true = refl
  scope_after s y false = refl

  resolved_gens :
      (s : WriteScope K) (y : Tracked K)
      → (resolve_abandoned_write (some s) y).1.gens ≡ counted s.watermark_bump_failed y.gens
  unfolding resolve_abandoned_write settle_watermark_failure take_watermark_bump_failure
  resolved_gens s y =
      settled_by (record s { watermark_bump_failed = false }) _ s.watermark_bump_failed
      ∙ ap (counted s.watermark_bump_failed) (advance-gens (watermark_of s) y)

  resolved_scope :
      (s : WriteScope K) (y : Tracked K)
      → (resolve_abandoned_write (some s) y).0 ≡ some (record s { watermark_bump_failed = false })
  unfolding resolve_abandoned_write settle_watermark_failure take_watermark_bump_failure
  resolved_scope s y =
      scope_after (record s { watermark_bump_failed = false }) _ s.watermark_bump_failed

  -- ResolveAbandonedWrite settles one failure where the scope's bump failed and none where it did not,
  -- and calling it again with the scope it leaves changes no generation.
  pub resolve_abandoned_write_once :
      (s : WriteScope K) (y : Tracked K)
      → ((resolve_abandoned_write (some s) y).1.gens.settled_dirty_gen
          ≡ settle_count s.watermark_bump_failed y.gens.settled_dirty_gen)
        × ((resolve_abandoned_write
              (resolve_abandoned_write (some s) y).0
              (resolve_abandoned_write (some s) y).1).1.gens
            ≡ (resolve_abandoned_write (some s) y).1.gens)
  resolve_abandoned_write_once s y =
      let left : WriteScope K = record s { watermark_bump_failed = false } in
      (
        ap (λ g. g.settled_dirty_gen) (resolved_gens s y),
        ap (λ o. (resolve_abandoned_write o (resolve_abandoned_write (some s) y).1).1.gens)
              (resolved_scope s y)
            ∙ resolved_gens left (resolve_abandoned_write (some s) y).1,
      )
