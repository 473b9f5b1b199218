-- ===== src/Watermark/Ledger/Advance.antt =====
-- `advanceLocked` restores the gap above `through`, and holds the same values.
use blood_trail.Prelude.{
  ℕ, suc, ◌≤◌, ◌≡◌, refl, ◌||◌, List, [], ◌∷◌, ltb, leb, if◌then◌else◌, arith, length, inc64,
  inc64-suc, bigint_bound, inl, inr, Bool-cases,
}
use blood_trail.Watermark.Ledger.{CounterRange, Ledger, absorb, advance_locked}
use blood_trail.Watermark.Ledger.Runs.{Runs, in_runs, accounted}

pub record Absorbs (l : Ledger) (rs : List CounterRange) (l' : Ledger) : Type 0 where
  pub runs : Runs (suc l'.through) l'.above
  pub bounded : l'.through ≤ bigint_bound
  pub same : (x : ℕ) → accounted l' x ≡ (leb x l.through || in_runs x rs)
  pub shorter : length l'.above ≤ length rs
  pub grows : l.through ≤ l'.through
  pub lost_kept : l'.lost ≡ l.lost
  pub highest_kept : l'.highest ≡ l.highest
  pub idle : rs ≡ [] → (l'.through ≡ l.through) × (l'.above ≡ [])

pub absorb-Absorbs :
    (b : ℕ) (l : Ledger) (rs : List CounterRange)
    → Runs b rs
    → l.through ≤ bigint_bound
    → Absorbs l rs (absorb l rs)
unfolding absorb
absorb-Absorbs b l [] v h = record {
  runs = tt;
  bounded = h;
  same = λ x. refl;
  shorter = omega arith;
  grows = omega arith;
  lost_kept = refl;
  highest_kept = refl;
  idle = λ _. (refl, refl);
}
absorb-Absorbs b l (r ∷ rs) v h = elim (Bool-cases (leb r.lo (inc64 l.through))) [
  | inr e ↦
      rw (e, absorb)
        (record {
          runs = (ground (arith, inc64-suc l.through h), v.1, v.2, v.3);
          bounded = h;
          same = λ x. refl;
          shorter = omega arith;
          grows = omega arith;
          lost_kept = refl;
          highest_kept = refl;
          idle = λ q. cc;
        })
  | inl e ↦
      let l' : Ledger = record l { through = if ltb l.through r.hi then r.hi else l.through } in
      let ih = absorb-Absorbs (suc r.hi) l' rs v.3 (ground arith) in
      rw (e, absorb)
        (record {
          runs = ih.runs;
          bounded = ih.bounded;
          same = λ x. ground (arith, ih.same x, inc64-suc l.through h);
          shorter = omega (arith, ih.shorter);
          grows = ground (arith, ih.grows);
          lost_kept = ih.lost_kept;
          highest_kept = ih.highest_kept;
          idle = λ q. cc;
        })
]

pub advance-Absorbs :
    (b : ℕ) (l : Ledger)
    → Runs b l.above
    → l.through ≤ bigint_bound
    → Absorbs l l.above (advance_locked l)
unfolding advance_locked
advance-Absorbs b l v h = absorb-Absorbs b l l.above v h
