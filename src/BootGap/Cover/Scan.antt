-- ===== src/BootGap/Cover/Scan.antt =====
-- The loop of `bootGapCoveredAt` over ascending counters.
use blood_trail.Prelude.{
  ℕ, suc, ◌≤◌, ◌<◌, ◌≡◌, refl, Bool, false, List, [], ◌∷◌, Option, none, some, leb, arith,
  inc64-suc, bigint_bound, count, SortedFrom, count-below, All, ◌⊎◌,
}
use blood_trail.BootGap.Cover.{covered, repeats, next_after, hole_after, scan}

abbrev pub Bounded : List ℕ → Type 0
Bounded cs = All (λ c. c ≤ bigint_bound) cs

-- The counters that are left start at the previous one, and do not hold it.
abbrev pub After : Option ℕ → List ℕ → Type 0
After none cs = SortedFrom 0 cs
After (some p) cs = SortedFrom p cs

abbrev pub Fresh : Option ℕ → List ℕ → Type 0
Fresh none cs = Unit {0}
Fresh (some p) cs = count p cs ≡ 0

-- What the counters that are left hold when every gap up to `pg` is filled from `next` on.
pub record Fills (file pg : ℕ) (previous : Option ℕ) (next : ℕ) (gap : Bool) (cs : List ℕ)
    : Type 0 where
  pub no_gap : gap ≡ false
  pub room : next ≤ suc pg
  pub fresh : Fresh previous cs
  pub single : (x : ℕ) → count x cs ≤ 1
  pub unclaimed : (x : ℕ) → x ≤ file → count x cs ≡ 0
  pub filled : (x : ℕ) → next ≤ x → x ≤ pg → count x cs ≡ 1

pub After-sorted :
    (previous : Option ℕ) (c : ℕ) (cs : List ℕ) → After previous (c ∷ cs) → SortedFrom c cs
After-sorted none c cs s = s.1
After-sorted (some p) c cs s = s.1

-- The previous counter is not the first of those left, so it is below all of them.
Fresh-cons :
    (previous : Option ℕ) (c : ℕ) (cs : List ℕ)
    → After previous (c ∷ cs)
    → repeats previous c ≡ false
    → Fresh previous (c ∷ cs)
Fresh-cons none c cs s e = tt
Fresh-cons (some p) c cs s e = ground (arith, count-below c p cs s.1)

Fresh-nil : (previous : Option ℕ) → Fresh previous []
Fresh-nil none = tt
Fresh-nil (some p) = refl

Fresh-repeats :
    (previous : Option ℕ) (c : ℕ) (cs : List ℕ)
    → Fresh previous (c ∷ cs)
    → repeats previous c ≡ false
Fresh-repeats none c cs f = refl
Fresh-repeats (some p) c cs f = ground arith

module _ (file pg : ℕ) (k : pg ≤ bigint_bound) where
  -- One counter past the tests for a contradiction.
  Fills-cons :
      (previous : Option ℕ) (next : ℕ) (gap : Bool) (c : ℕ) (cs : List ℕ)
      → next ≤ suc pg
      → c ≤ bigint_bound
      → After previous (c ∷ cs)
      → repeats previous c ≡ false
      → leb c file ≡ false
      → Fills file pg (some c) (next_after pg next c) (hole_after pg next gap c) cs
      → Fills file pg previous next gap (c ∷ cs)
  Fills-cons previous next gap c cs r q s e d f = record {
    no_gap = ground (arith, f.no_gap);
    room = r;
    fresh = Fresh-cons previous c cs s e;
    single = λ x. ground (arith, f.single x, f.fresh);
    unclaimed = λ x p. ground (arith, f.unclaimed x);
    filled = λ x p p'. ground (
      arith,
      f.no_gap,
      f.filled x,
      f.fresh,
      inc64-suc next,
      inc64-suc c,
      count-below c x cs (After-sorted previous c cs s),
    );
  }

  next_after-room : (next c : ℕ) → next ≤ suc pg → c ≤ bigint_bound → next_after pg next c ≤ suc pg
  next_after-room next c r q = ground (arith, inc64-suc next, inc64-suc c)

  pub covered-Fills :
      (previous : Option ℕ) (next : ℕ) (gap : Bool) (cs : List ℕ)
      → next ≤ suc pg
      → Bounded cs
      → After previous cs
      → (scan file pg previous next gap cs).0 ≡ covered
      → Fills file pg previous next gap cs
  unfolding scan
  covered-Fills previous next gap [] r b s h = record {
    no_gap = ground arith;
    room = r;
    fresh = Fresh-nil previous;
    single = λ x. omega arith;
    unclaimed = λ x p. refl;
    filled = λ x p p'. ground (arith, inc64-suc pg k);
  }
  covered-Fills previous next gap (c ∷ cs) r b s h =
      Fills-cons previous next gap c cs r b.0 s (ground arith) (ground arith) (
        covered-Fills (some c) (next_after pg next c) (hole_after pg next gap c) cs
          (next_after-room next c r b.0) b.1 (After-sorted previous c cs s) (ground arith))

  -- The other way round: with the gap filled, and no counter below `next`, each round finds the
  -- counter it waits for, or one above `pg`.
  Fills-tail :
      (previous : Option ℕ) (next : ℕ) (gap : Bool) (c : ℕ) (cs : List ℕ)
      → c ≤ bigint_bound
      → After previous (c ∷ cs)
      → Fills file pg previous next gap (c ∷ cs)
      → ((x : ℕ) → x < next → count x (c ∷ cs) ≡ 0)
      → Fills file pg (some c) (next_after pg next c) (hole_after pg next gap c) cs
        × ((x : ℕ) → x < next_after pg next c → count x cs ≡ 0)
  Fills-tail previous next gap c cs q s f low =
      let due : (pg < c) ⊎ (c ≡ next) =
        ground
          (arith, low c, f.filled next, count-below c next cs (After-sorted previous c cs s)) in
      let c' = inc64-suc c q in
      let once : count c cs ≡ 0 = ground (arith, f.single c) in
      (
        record {
          no_gap = ground (arith, f.no_gap);
          room = ground (arith, f.room);
          fresh = once;
          single = λ x. ground (arith, f.single x);
          unclaimed = λ x p. ground (arith, f.unclaimed x);
          filled = λ x p p'. ground (arith, f.filled x);
        },
        λ x p. ground (arith, low x),
      )

  pub Fills-covered :
      (previous : Option ℕ) (next : ℕ) (gap : Bool) (cs : List ℕ)
      → Bounded cs
      → After previous cs
      → Fills file pg previous next gap cs
      → ((x : ℕ) → x < next → count x cs ≡ 0)
      → (scan file pg previous next gap cs).0 ≡ covered
  unfolding scan
  Fills-covered previous next gap [] b s f low =
      ground (arith, f.no_gap, f.room, f.filled next, inc64-suc pg k)
  Fills-covered previous next gap (c ∷ cs) b s f low =
      let t = Fills-tail previous next gap c cs b.0 s f low in
      ground (
        arith,
        f.unclaimed c,
        Fresh-repeats previous c cs f.fresh,
        Fills-covered (some c) (next_after pg next c) (hole_after pg next gap c) cs b.1
            (After-sorted previous c cs s) t.0 t.1,
      )
