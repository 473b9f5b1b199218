-- ===== src/Watermark/Ledger/Steps.antt =====
-- What one call of `resolve` or `rebase` does to a ledger that is in order.
use blood_trail.Prelude.{
  ℕ, suc, ◌≤◌, ◌<◌, ◌≡◌, refl, true, false, ◌||◌, List, [], Option, ltb, leb, ◌==◌, if◌then◌else◌,
  arith, length, search, ltb→lt, ltb_false→le, bigint_bound, inl, inr, Bool-cases, sym, ap, ◌∙◌,
  ◌↔◌, ◌⊎◌,
}
use blood_trail.Watermark.Ledger.{
  CounterRange, Ledger, max_ledger_ranges, starts_above, after_edit, insert_locked, advance_locked,
  resolve, rebase,
}
use blood_trail.Watermark.Ledger.Runs.{Runs, in_runs, accounted, Runs-weaken, search-SplitsAt}
use blood_trail.Watermark.Ledger.Insert.{Adds, overflows, adds, edit-Adds}
use blood_trail.Watermark.Ledger.Advance.{Absorbs, advance-Absorbs}
use blood_trail.Watermark.Ledger.Size.{AtMost, edit-AtMost}

-- The runs lie above `through + 1`, there are not too many, and a lost ledger keeps none.
pub record IsLedger (l : Ledger) : Type 0 where
  pub runs : Runs (suc l.through) l.above
  pub bounded : l.through ≤ bigint_bound
  pub size : length l.above ≤ max_ledger_ranges
  pub gone : l.lost ≡ true → l.above ≡ []

-- The ledger after a value above `through` is added, when it is not lost.
pub record Inserts (l : Ledger) (c : ℕ) (l' : Ledger) : Type 0 where
  pub runs : Runs l.through l'.above
  pub size : length l'.above ≤ max_ledger_ranges
  pub gone : l'.lost ≡ true → l'.above ≡ []
  pub through_kept : l'.through ≡ l.through
  pub highest_kept : l'.highest ≡ l.highest
  pub holds : l'.lost ≡ false → (x : ℕ) → in_runs x l'.above ≡ (in_runs x l.above || x == c)

after_edit-Inserts :
    (l : Ledger) (c : ℕ) {o : Option (List CounterRange)}
    → l.lost ≡ false
    → Adds l.through c l.above o
    → AtMost max_ledger_ranges o
    → Inserts l c (after_edit l o)
after_edit-Inserts l c p overflows n = record {
  runs = tt;
  size = omega arith;
  gone = λ _. refl;
  through_kept = refl;
  highest_kept = refl;
  holds = λ e. cc;
}
after_edit-Inserts l c p (adds v a) n = record {
  runs = v;
  size = n;
  gone = λ e. cc;
  through_kept = refl;
  highest_kept = refl;
  holds = λ _. a;
}

pub insert_locked-Inserts :
    (l : Ledger) (c : ℕ)
    → IsLedger l
    → l.lost ≡ false
    → l.through < c
    → c ≤ bigint_bound
    → Inserts l c (insert_locked l c)
unfolding insert_locked
insert_locked-Inserts l c v p h k =
    let at = search (length l.above) (starts_above c l.above) in
    after_edit-Inserts l c p
      (edit-Adds (leb max_ledger_ranges (length l.above)) at l.through c l.above
        (Runs-weaken l.through (suc l.through) l.above (omega arith) v.runs) h k
        (search-SplitsAt (suc l.through) c l.above v.runs))
      (edit-AtMost at c max_ledger_ranges l.above v.size)

abbrev note_highest : Ledger → ℕ → Ledger
note_highest l c = record l { highest = if ltb l.highest c then c else l.highest }

-- What `resolve` does, lost ledgers included.
pub record Resolves (l : Ledger) (c : ℕ) (l' : Ledger) : Type 0 where
  pub ledger : IsLedger l'
  pub highest_is : l'.highest ≡ (if ltb l.highest c then c else l.highest)
  pub grows : l.through ≤ l'.through
  pub stays_lost : l.lost ≡ true → (l'.lost ≡ true) × (l'.through ≡ l.through)
  pub newly_lost : l.lost ≡ false → l'.lost ≡ true → l'.through ≡ l.through
  pub exact :
      l.lost ≡ false → l'.lost ≡ false → (x : ℕ) → accounted l' x ≡ (accounted l x || x == c)

resolve_kept :
    (l : Ledger) (c : ℕ)
    → IsLedger l
    → (leb c l.through || l.lost) ≡ true
    → Resolves l c (note_highest l c)
resolve_kept l c v e = record {
  ledger = record { runs = v.runs; bounded = v.bounded; size = v.size; gone = v.gone };
  highest_is = refl;
  grows = omega arith;
  stays_lost = λ p. (p, refl);
  newly_lost = λ p q. refl;
  exact = λ p q x. ground arith;
}

resolve_inserted :
    (l l₁ l₂ : Ledger) (c : ℕ)
    → IsLedger l
    → l.lost ≡ false
    → l.through < c
    → Inserts (note_highest l c) c l₁
    → Absorbs l₁ l₁.above l₂
    → Resolves l c l₂
resolve_inserted l l₁ l₂ c v p h ins abs = record {
  ledger = record {
    runs = abs.runs;
    bounded = abs.bounded;
    size = omega (arith, abs.shorter, ins.size);
    gone = λ q. (abs.idle (ins.gone (sym abs.lost_kept ∙ q))).1;
  };
  highest_is = abs.highest_kept ∙ ins.highest_kept;
  grows = omega (arith, abs.grows, ins.through_kept);
  stays_lost = λ q. cc;
  newly_lost = λ q r. (abs.idle (ins.gone (sym abs.lost_kept ∙ r))).0 ∙ ins.through_kept;
  exact =
      λ q r x. ground (arith, abs.same x, ins.holds (sym abs.lost_kept ∙ r) x, ins.through_kept);
}

pub resolve-Resolves :
    (l : Ledger) (c : ℕ) → IsLedger l → c ≤ bigint_bound → Resolves l c (resolve l c)
unfolding resolve
resolve-Resolves l c v k = elim (Bool-cases (leb c l.through || l.lost)) [
  | inl e ↦ rw e (resolve_kept l c v e)
  | inr e ↦
      let p : l.lost ≡ false = ground arith in
      let h : l.through < c = ground arith in
      let w : IsLedger (note_highest l c) = record {
        runs = v.runs;
        bounded = v.bounded;
        size = v.size;
        gone = v.gone;
      } in
      let ins = insert_locked-Inserts (note_highest l c) c w p h k in
      rw e (
        resolve_inserted l _ _ c v p h ins (
          advance-Absorbs l.through (insert_locked (note_highest l c) c) ins.runs
            (omega (arith, ins.through_kept, v.bounded))))
]

-- What `rebase` does: a lost ledger is exact again once the floor covers all it dropped.
pub record Rebases (l : Ledger) (f : ℕ) (l' : Ledger) : Type 0 where
  pub ledger : IsLedger l'
  pub highest_kept : l'.highest ≡ l.highest
  pub grows : l.through ≤ l'.through
  pub covers : f ≤ l'.through
  pub recovers : (l'.lost ≡ false) ↔ ((l.lost ≡ false) ⊎ (l.highest ≤ f))
  pub exact : (x : ℕ) → accounted l' x ≡ (accounted l x || leb x f)

abbrev raise_floor : Ledger → ℕ → Ledger
raise_floor l f = record l { through = if ltb l.through f then f else l.through }

rebase_advanced :
    (l l₁ l₂ : Ledger) (f : ℕ)
    → IsLedger l
    → l₁.through ≡ (raise_floor l f).through
    → l₁.above ≡ l.above
    → l₁.highest ≡ l.highest
    → l₁.lost ≡ false
    → ((l.lost ≡ false) ⊎ (l.highest ≤ f))
    → Absorbs l₁ l₁.above l₂
    → Rebases l f l₂
rebase_advanced l l₁ l₂ f v t a g p d abs = record {
  ledger = record {
    runs = abs.runs;
    bounded = abs.bounded;
    size = omega (arith, abs.shorter, ap length a, v.size);
    gone = λ q. cc (abs.lost_kept, p, q);
  };
  highest_kept = abs.highest_kept ∙ g;
  grows = ground (arith, abs.grows);
  covers = ground (arith, abs.grows);
  recovers = (λ _. d, λ _. abs.lost_kept ∙ p);
  exact = λ x. ground (arith, abs.same x, ap (in_runs x) a);
}

rebase_low :
    (l : Ledger) (f : ℕ)
    → IsLedger l
    → f ≤ bigint_bound
    → l.lost ≡ true
    → f < l.highest
    → Rebases l f (raise_floor l f)
rebase_low l f v k e h =
    let none_above = v.gone e in
    record {
      ledger = record {
        runs = rw none_above tt;
        bounded = ground (arith, v.bounded);
        size = v.size;
        gone = v.gone;
      };
      highest_kept = refl;
      grows = ground arith;
      covers = ground arith;
      recovers = (λ q. cc, λ q. ground arith);
      exact = λ x. ground (arith, ap (in_runs x) none_above);
    }

rebase-exact : (l : Ledger) (f : ℕ) → l.lost ≡ false → rebase l f ≡ advance_locked (raise_floor l f)
unfolding rebase
rebase-exact l f e = ground arith

rebase-kept_lost :
    (l : Ledger) (f : ℕ) → l.lost ≡ true → f < l.highest → rebase l f ≡ raise_floor l f
unfolding rebase
rebase-kept_lost l f e h = ground arith

rebase-found :
    (l : Ledger) (f : ℕ)
    → l.lost ≡ true
    → l.highest ≤ f
    → rebase l f ≡ advance_locked (record (raise_floor l f) { lost = false })
unfolding rebase
rebase-found l f e h = ground arith

pub rebase-Rebases : (l : Ledger) (f : ℕ) → IsLedger l → f ≤ bigint_bound → Rebases l f (rebase l f)
rebase-Rebases l f v k = elim (Bool-cases l.lost) [
  | inr e ↦ simp (rebase-exact l f e) (
      rebase_advanced l (raise_floor l f) _ f v refl refl refl e (inl e)
        (advance-Absorbs (suc l.through) (raise_floor l f) v.runs (ground (arith, v.bounded))))
  | inl e ↦ elim (Bool-cases (ltb f l.highest)) [
    | inl h ↦
        simp (rebase-kept_lost l f e (ltb→lt f l.highest h))
          (rebase_low l f v k e (ltb→lt f l.highest h))
    | inr h ↦ simp (rebase-found l f e (ltb_false→le f l.highest h)) (
        rebase_advanced l (record (raise_floor l f) { lost = false }) _ f v refl refl refl refl
          (inr (ltb_false→le f l.highest h))
          (advance-Absorbs (suc l.through) (record (raise_floor l f) { lost = false }) v.runs
            (ground (arith, v.bounded))))
  ]
]
