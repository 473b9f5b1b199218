-- ===== src/Watermark/Trust.antt =====
-- internal/engine/watermark.go and engine.go: the generations of watermark failures (noted, settled,
-- resolved), the bumps in flight, and the decisions that read them. An atomic counter is one step.
pub mod Steps
pub mod Converged
mod Examples
use blood_trail.Prelude.{
  ℕ, zero, suc, ℤ, pos, negsuc, Bool, true, false, ◌&&◌, ◌||◌, Option, none, some, ltb, ◌==◌,
  if◌then◌else◌, not, inc64,
}
use blood_trail.Changes.Scope.{
  WriteScope, watermark_of, mark_watermark_bump_failed, take_watermark_bump_failure,
}
use blood_trail.Watermark.Ledger.{Ledger, resolve, rebase, resolved_through}

pub record Gens : Type 0 where
  pub dirty_gen : ℕ
  pub settled_dirty_gen : ℕ
  pub resolved_dirty_gen : ℕ

pub data EngineState : Type 0 where
  serving fallback : EngineState

unfoldable pub max_watermark : ℕ → ℕ → ℕ
max_watermark cur candidate = if ltb cur candidate then candidate else cur

abbrev note : Gens → Gens
note g = record g { dirty_gen = inc64 g.dirty_gen }

module _ {K : Type 0} where
  -- The failed bump of a scope that is not nil, with the answer of its mark.
  abbrev pub note_marked : WriteScope K × Bool → Gens → Option (WriteScope K) × Gens × Bool
  note_marked (s, true) g = (some s, note g, true)
  note_marked (s, false) g = (some s, g, false)

  -- The scope and the generations after the call, and what it returns. The call that opens a
  -- generation also removes the snapshot file.
  unfoldable pub note_watermark_bump_failure :
      Option (WriteScope K) → Gens → Option (WriteScope K) × Gens × Bool
  note_watermark_bump_failure none g = (none, note g, true)
  note_watermark_bump_failure (some s) g = note_marked (mark_watermark_bump_failed s) g

  abbrev pub settle_taken : WriteScope K × Bool → Gens → Option (WriteScope K) × Gens × Bool
  settle_taken (s, true) g =
      (some s, record g { settled_dirty_gen = inc64 g.settled_dirty_gen }, true)
  settle_taken (s, false) g = (some s, g, false)

  unfoldable pub settle_watermark_failure :
      Option (WriteScope K) → Gens → Option (WriteScope K) × Gens × Bool
  settle_watermark_failure none g = (none, g, false)
  settle_watermark_failure (some s) g = settle_taken (take_watermark_bump_failure s) g

unfoldable pub note_self_settling_watermark_failure : Gens → Gens
note_self_settling_watermark_failure g = record g {
  dirty_gen = inc64 g.dirty_gen;
  settled_dirty_gen = inc64 g.settled_dirty_gen;
}

-- What adoptRebuiltView does to the generations, for the settled generation read before its load.
unfoldable pub adopt_gens : ℕ → Gens → Gens
unfolding max_watermark
adopt_gens settled_gen g = record g {
  resolved_dirty_gen = max_watermark g.resolved_dirty_gen settled_gen;
}

abbrev pub is_serving : EngineState → Bool
is_serving serving = true
is_serving fallback = false

unfoldable pub watermark_trusted_for : ℕ → ℕ → Bool → EngineState → Bool
watermark_trusted_for dirty_gen resolved_gen converged state =
    dirty_gen == resolved_gen && converged && is_serving state

-- The bumps in flight are an int64, which a call for a write that never bumped takes below zero.
abbrev pub none_inflight : ℤ → Bool
none_inflight (pos n) = n == 0
none_inflight (negsuc n) = false

-- `Add(-1)`
abbrev pub retire_bump : ℤ → ℤ
retire_bump (pos zero) = negsuc 0
retire_bump (pos (suc n)) = pos n
retire_bump (negsuc n) = negsuc (suc n)

unfoldable pub watermark_converged_for : ℕ → ℕ → ℤ → Bool
watermark_converged_for pg_counter applied inflight =
    none_inflight inflight && pg_counter == applied

pub record WatermarkReading : Type 0 where
  pub pg_counter : ℕ
  pub inflight : ℤ
  pub through : ℕ
  pub exact : Bool

unfoldable pub converged : WatermarkReading → Bool
unfolding watermark_converged_for
converged r = r.exact && watermark_converged_for r.pg_counter r.through r.inflight

unfoldable pub unaccounted : WatermarkReading → Bool
unaccounted r = none_inflight r.inflight && (not r.exact || ltb r.through r.pg_counter)

-- One reading, for the counter that PostgreSQL returned.
unfoldable pub read_watermark_convergence : ℕ → ℤ → Ledger → WatermarkReading
read_watermark_convergence pg_counter inflight applied = record {
  pg_counter = pg_counter;
  inflight = inflight;
  through = (resolved_through applied).0;
  exact = (resolved_through applied).1;
}

-- The ledger and the bumps in flight.
unfoldable pub advance_watermark : ℕ → Ledger × ℤ → Ledger × ℤ
advance_watermark counter (applied, inflight) = (resolve applied counter, retire_bump inflight)

-- What a rebuild that is adopted does to the ledger, for the counter its load read.
unfoldable pub rebase_on_adoption : Bool → Option ℕ → Ledger → Ledger
rebase_on_adoption false loaded applied = applied
rebase_on_adoption true none applied = applied
rebase_on_adoption true (some counter) applied = rebase applied counter
