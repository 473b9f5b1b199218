-- ===== src/Watermark/Trust/Steps.antt =====
-- The generations under any interleaving of writes, loads and adoptions.
use blood_trail.Prelude.{
  ℕ, zero, suc, ◌+◌, ◌≤◌, ◌≡◌, refl, sym, Bool, true, false, List, [], ◌∷◌, Option, none, some,
  if◌then◌else◌, if_cases, arith, length, set, get_elem?, All, inc64-suc, bigint_bound,
}
use mathlib.Core.Option.{some-injective}
use blood_trail.Changes.Scope.{
  WriteScope, new_write_scope, mark_watermark_bump_failed, take_watermark_bump_failure,
}
use blood_trail.Watermark.Trust.{
  Gens, EngineState, note_marked, settle_taken, max_watermark, note_watermark_bump_failure,
  settle_watermark_failure, note_self_settling_watermark_failure, adopt_gens, watermark_trusted_for,
}

-- The write scopes that exist, the failures noted for no scope, and the settled generation that each
-- load under way read before it began.
pub record System (K : Type 0) : Type 0 where
  pub gens : Gens
  pub scopes : List (WriteScope K)
  pub unscoped : ℕ
  pub loads : List ℕ

-- Scopes and loads are given by their index; a load may be adopted, or refused, which changes
-- nothing.
pub data Event : Type 0 where
  opened unscoped_failed table_failed load_begun : Event
  bump_failed settled adopted : ℕ → Event

loads_later : (a b : ℕ) (rs : List ℕ) → a ≤ b → All (λ r. r ≤ a) rs → All (λ r. r ≤ b) rs
loads_later a b [] p v = tt
loads_later a b (r ∷ rs) p v = (omega (arith, v.0), loads_later a b rs p v.1)

load_at : (a : ℕ) (rs : List ℕ) (i r : ℕ) → All (λ r. r ≤ a) rs → get_elem? rs i ≡ some r → r ≤ a
load_at a [] i r v h = cc
load_at a (x ∷ rs) zero r v h = let same : x ≡ r = some-injective x r h in rw (sym same) v.0
load_at a (x ∷ rs) (suc i) r v h = load_at a rs i r v.1 h

module _ {K : Type 0} where
  abbrev pub put_scope : System K → ℕ → Option (WriteScope K) × Gens × Bool → System K
  put_scope y i (none, g, _) = record y { gens = g }
  put_scope y i (some s, g, _) = record y { gens = g; scopes = set y.scopes i s }

  abbrev pub fail_scope : System K → ℕ → Option (WriteScope K) → System K
  fail_scope y i none = y
  fail_scope y i (some s) = put_scope y i (note_watermark_bump_failure (some s) y.gens)

  abbrev pub settle_scope : System K → ℕ → Option (WriteScope K) → System K
  settle_scope y i none = y
  settle_scope y i (some s) = put_scope y i (settle_watermark_failure (some s) y.gens)

  abbrev pub adopt_load : System K → Option ℕ → System K
  adopt_load y none = y
  adopt_load y (some read) = record y { gens = adopt_gens read y.gens }

  unfoldable pub step : Event → System K → System K
  step opened y = record y { scopes = new_write_scope ∷ y.scopes }
  step unscoped_failed y = record y {
    gens = (note_watermark_bump_failure {K = K} none y.gens).1;
    unscoped = suc y.unscoped;
  }
  step table_failed y = record y { gens = note_self_settling_watermark_failure y.gens }
  step load_begun y = record y { loads = y.gens.settled_dirty_gen ∷ y.loads }
  step (bump_failed i) y = fail_scope y i (get_elem? y.scopes i)
  step (settled i) y = settle_scope y i (get_elem? y.scopes i)
  step (adopted i) y = adopt_load y (get_elem? y.loads i)

  abbrev pub start : System K
  start = record {
    gens = record { dirty_gen = 0; settled_dirty_gen = 0; resolved_dirty_gen = 0 };
    scopes = [];
    unscoped = 0;
    loads = [];
  }

  -- The newest event comes first.
  unfoldable pub run_system : List Event → System K
  unfolding step
  run_system [] = start
  run_system (e ∷ h) = step e (run_system h)

  abbrev pub mark : WriteScope K → ℕ
  mark s = if s.watermark_bump_failed then 1 else 0

  -- The scopes whose failed bump is not settled.
  abbrev pub unsettled : List (WriteScope K) → ℕ
  unsettled [] = 0
  unsettled (s ∷ ss) = mark s + unsettled ss

  -- After at most n steps: every failure noted is settled, or still marked on its scope, or has no
  -- scope; and nothing is resolved, nor read by a load, that is not settled.
  pub record IsSystem (n : ℕ) (y : System K) : Type 0 where
    pub few : y.gens.dirty_gen ≤ n
    pub balance : y.gens.dirty_gen ≡ y.gens.settled_dirty_gen + (unsettled y.scopes + y.unscoped)
    pub resolved_settled : y.gens.resolved_dirty_gen ≤ y.gens.settled_dirty_gen
    pub loads_settled : All (λ r. r ≤ y.gens.settled_dirty_gen) y.loads

  unsettled-set :
      (ss : List (WriteScope K)) (i : ℕ) (s s' : WriteScope K)
      → get_elem? ss i ≡ some s
      → unsettled (set ss i s') + mark s ≡ unsettled ss + mark s'
  unsettled-set [] i s s' h = cc
  unsettled-set (x ∷ ss) zero s s' h =
      let same : x ≡ s = some-injective x s h in rw same (omega arith)
  unsettled-set (x ∷ ss) (suc i) s s' h = omega (arith, unsettled-set ss i s s' h)

  fail-IsSystem :
      (n : ℕ) (y : System K) (i : ℕ) (s : WriteScope K)
      → n ≤ bigint_bound
      → IsSystem n y
      → get_elem? y.scopes i ≡ some s
      → IsSystem (suc n) (fail_scope y i (some s))
  unfolding note_watermark_bump_failure mark_watermark_bump_failed
  fail-IsSystem n y i s p v h =
      if_cases (λ r. IsSystem (suc n) (put_scope y i (note_marked r y.gens)))
        s.watermark_bump_failed
        (λ e. record {
          few = omega (arith, v.few);
          balance = omega (arith, v.balance, unsettled-set y.scopes i s s h);
          resolved_settled = v.resolved_settled;
          loads_settled = v.loads_settled;
        })
        (λ e.
          let next = inc64-suc y.gens.dirty_gen (omega (arith, v.few)) in
          let moved = unsettled-set y.scopes i s (record s { watermark_bump_failed = true }) h in
          record {
            few = omega (arith, v.few, next);
            balance = ground (arith, v.balance, next, moved);
            resolved_settled = v.resolved_settled;
            loads_settled = v.loads_settled;
          })

  -- By what the scope's mark was.
  settle_mark :
      (n : ℕ) (y : System K) (i : ℕ) (s : WriteScope K)
      → n ≤ bigint_bound
      → IsSystem n y
      → get_elem? y.scopes i ≡ some s
      → (t : Bool) → s.watermark_bump_failed ≡ t
      → IsSystem
          (suc n)
          (put_scope y i (settle_taken (record s { watermark_bump_failed = false }, t) y.gens))
  settle_mark n y i s p v h true e =
      let next = inc64-suc y.gens.settled_dirty_gen (omega (arith, v.few, v.balance)) in
      let moved = unsettled-set y.scopes i s (record s { watermark_bump_failed = false }) h in
      record {
        few = omega (arith, v.few);
        balance = ground (arith, v.balance, next, moved);
        resolved_settled = omega (arith, v.resolved_settled, next);
        loads_settled =
            loads_later y.gens.settled_dirty_gen _ y.loads (omega (arith, next)) v.loads_settled;
      }
  settle_mark n y i s p v h false e =
      let moved = unsettled-set y.scopes i s (record s { watermark_bump_failed = false }) h in
      record {
        few = omega (arith, v.few);
        balance = ground (arith, v.balance, moved);
        resolved_settled = v.resolved_settled;
        loads_settled = v.loads_settled;
      }

  wait-IsSystem : (n : ℕ) (y : System K) → IsSystem n y → IsSystem (suc n) y
  wait-IsSystem n y v = record {
    few = omega (arith, v.few);
    balance = v.balance;
    resolved_settled = v.resolved_settled;
    loads_settled = v.loads_settled;
  }

  step_failed :
      (n : ℕ) (y : System K) (i : ℕ) (o : Option (WriteScope K))
      → n ≤ bigint_bound
      → IsSystem n y
      → get_elem? y.scopes i ≡ o
      → IsSystem (suc n) (fail_scope y i o)
  step_failed n y i none p v h = wait-IsSystem n y v
  step_failed n y i (some s) p v h = fail-IsSystem n y i s p v h

  step_settled :
      (n : ℕ) (y : System K) (i : ℕ) (o : Option (WriteScope K))
      → n ≤ bigint_bound
      → IsSystem n y
      → get_elem? y.scopes i ≡ o
      → IsSystem (suc n) (settle_scope y i o)
  unfolding settle_watermark_failure take_watermark_bump_failure
  step_settled n y i none p v h = wait-IsSystem n y v
  step_settled n y i (some s) p v h = settle_mark n y i s p v h s.watermark_bump_failed refl

  step_adopted :
      (n : ℕ) (y : System K) (i : ℕ) (o : Option ℕ)
      → IsSystem n y
      → get_elem? y.loads i ≡ o
      → IsSystem (suc n) (adopt_load y o)
  unfolding adopt_gens max_watermark
  step_adopted n y i none v h = wait-IsSystem n y v
  step_adopted n y i (some r) v h =
      let settled = load_at y.gens.settled_dirty_gen y.loads i r v.loads_settled h in
      record {
        few = omega (arith, v.few);
        balance = v.balance;
        resolved_settled = ground (arith, v.resolved_settled, settled);
        loads_settled = v.loads_settled;
      }

  step-IsSystem :
      (n : ℕ) (y : System K) (e : Event)
      → n ≤ bigint_bound
      → IsSystem n y
      → IsSystem (suc n) (step e y)
  unfolding step note_watermark_bump_failure note_self_settling_watermark_failure new_write_scope
  step-IsSystem n y opened p v = record {
    few = omega (arith, v.few);
    balance = omega (arith, v.balance);
    resolved_settled = v.resolved_settled;
    loads_settled = v.loads_settled;
  }
  step-IsSystem n y unscoped_failed p v =
      let next = inc64-suc y.gens.dirty_gen (omega (arith, v.few)) in
      record {
        few = omega (arith, v.few, next);
        balance = omega (arith, v.balance, next);
        resolved_settled = v.resolved_settled;
        loads_settled = v.loads_settled;
      }
  step-IsSystem n y table_failed p v =
      let next = inc64-suc y.gens.dirty_gen (omega (arith, v.few)) in
      let next' = inc64-suc y.gens.settled_dirty_gen (omega (arith, v.few, v.balance)) in
      record {
        few = omega (arith, v.few, next);
        balance = omega (arith, v.balance, next, next');
        resolved_settled = omega (arith, v.resolved_settled, next');
        loads_settled =
            loads_later y.gens.settled_dirty_gen _ y.loads (omega (arith, next')) v.loads_settled;
      }
  step-IsSystem n y load_begun p v = record {
    few = omega (arith, v.few);
    balance = v.balance;
    resolved_settled = v.resolved_settled;
    loads_settled = (omega arith, v.loads_settled);
  }
  step-IsSystem n y (bump_failed i) p v = step_failed n y i (get_elem? y.scopes i) p v refl
  step-IsSystem n y (settled i) p v = step_settled n y i (get_elem? y.scopes i) p v refl
  step-IsSystem n y (adopted i) p v = step_adopted n y i (get_elem? y.loads i) v refl

  -- Whatever interleaves: resolved ≤ settled ≤ noted, and every failure noted and not settled is
  -- marked on its scope or belongs to none. At most 2 ^ 63 events happen, so no counter wraps.
  pub run_system-IsSystem :
      (h : List Event) → length h ≤ bigint_bound → IsSystem (length h) (run_system h)
  unfolding run_system
  run_system-IsSystem [] p = record {
    few = omega arith;
    balance = omega arith;
    resolved_settled = omega arith;
    loads_settled = tt;
  }
  run_system-IsSystem (e ∷ h) p =
      step-IsSystem (length h) (run_system h) e (omega arith) (run_system-IsSystem h (omega arith))

-- Trust, after any interleaving of at most 2 ^ 63 events, means that no failed bump is left unsettled: none is marked on a
-- scope, none had no scope, and the generation resolved is the one settled.
pub trusted-settled :
    (K : Type 0) (h : List Event) (converged : Bool) (state : EngineState)
    → length h ≤ bigint_bound
    → watermark_trusted_for
        (run_system {K = K} h).gens.dirty_gen
        (run_system {K = K} h).gens.resolved_dirty_gen
        converged
        state
      ≡ true
    → (unsettled (run_system {K = K} h).scopes ≡ 0)
      × ((run_system {K = K} h).unscoped ≡ 0)
      × ((run_system {K = K} h).gens.resolved_dirty_gen
          ≡ (run_system {K = K} h).gens.settled_dirty_gen)
unfolding watermark_trusted_for
trusted-settled K h converged state p t =
    let y : System K = run_system h in
    let v = run_system-IsSystem {K = K} h p in
    let same : y.gens.dirty_gen ≡ y.gens.resolved_dirty_gen = ground arith in
    (
      omega (arith, v.balance, v.resolved_settled),
      omega (arith, v.balance, v.resolved_settled),
      omega (arith, v.balance, v.resolved_settled),
    )
