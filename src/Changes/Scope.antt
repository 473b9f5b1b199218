-- ===== src/Changes/Scope.antt =====
-- internal/engine/changes_scope.go: WriteScope.
use blood_trail.Prelude.{ℕ, Bool, true, false, Option, none, some, if◌then◌else◌}
use blood_trail.Changes.{ChangeSet, new_change_set, empty}

pub record WriteScope (K : Type 0) : Type 0 where
  pub changes : ChangeSet K
  pub watermark : ℕ
  pub watermark_bumped : Bool
  pub watermark_bump_failed : Bool

module _ {K : Type 0} where
  unfoldable pub new_write_scope : WriteScope K
  new_write_scope = record {
    changes = new_change_set;
    watermark = 0;
    watermark_bumped = false;
    watermark_bump_failed = false;
  }

  unfoldable pub is_empty : WriteScope K → Bool
  is_empty s = empty s.changes

  unfoldable pub set_watermark : ℕ → WriteScope K → WriteScope K
  set_watermark counter s = record s { watermark = counter; watermark_bumped = true }

  -- The counter, where the bump succeeded.
  unfoldable pub watermark_of : WriteScope K → Option ℕ
  watermark_of s = if s.watermark_bumped then some s.watermark else none

  -- The scope after the call, and whether this call set the mark.
  unfoldable pub mark_watermark_bump_failed : WriteScope K → WriteScope K × Bool
  mark_watermark_bump_failed s =
      if s.watermark_bump_failed
      then (s, false)
      else (record s { watermark_bump_failed = true }, true)

  unfoldable pub take_watermark_bump_failure : WriteScope K → WriteScope K × Bool
  take_watermark_bump_failure s =
      (record s { watermark_bump_failed = false }, s.watermark_bump_failed)
