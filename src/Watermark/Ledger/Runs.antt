-- ===== src/Watermark/Ledger/Runs.antt =====
-- The invariant on the runs of a ledger, and what they hold.
use blood_trail.Prelude.{
  ℕ, zero, suc, ◌≤◌, ◌<◌, ◌≡◌, refl, Bool, false, ◌&&◌, ◌||◌, List, [], ◌∷◌, leb, arith, length,
  get_or, Ascends, FirstAt, search, search-first, bigint_bound,
}
use blood_trail.Watermark.Ledger.{CounterRange, Ledger, starts_above, no_range}

-- Sorted and disjoint, no two adjacent, and all above `b`.
abbrev pub Runs : ℕ → List CounterRange → Type 0
Runs b [] = Unit {0}
Runs b (r ∷ rs) = (b < r.lo) × (r.lo ≤ r.hi) × (r.hi ≤ bigint_bound) × Runs (suc r.hi) rs

abbrev pub in_range : ℕ → CounterRange → Bool
in_range x r = leb r.lo x && leb x r.hi

abbrev pub in_runs : ℕ → List CounterRange → Bool
in_runs x [] = false
in_runs x (r ∷ rs) = in_range x r || in_runs x rs

-- A value is accounted for.
abbrev pub accounted : Ledger → ℕ → Bool
accounted l x = leb x l.through || in_runs x l.above

pub Runs-weaken : (a b : ℕ) (rs : List CounterRange) → a ≤ b → Runs b rs → Runs a rs
Runs-weaken a b [] h v = tt
Runs-weaken a b (r ∷ rs) h v = (omega arith, v.1, v.2, v.3)

pub Runs-below : (b x : ℕ) (rs : List CounterRange) → Runs b rs → x ≤ b → in_runs x rs ≡ false
Runs-below b x [] v h = refl
Runs-below b x (r ∷ rs) v h = ground (arith, Runs-below (suc r.hi) x rs v.3)

-- Index i splits the runs into those that start at or below c and those above it.
abbrev pub SplitsAt : ℕ → ℕ → List CounterRange → Type 0
SplitsAt zero c [] = Unit {0}
SplitsAt zero c (r ∷ rs) = c < r.lo
SplitsAt (suc i) c [] = ⊥
SplitsAt (suc i) c (r ∷ rs) = (r.lo ≤ c) × SplitsAt i c rs

-- A run at an index past the head starts above the bound.
Runs-get :
    (b : ℕ) (rs : List CounterRange) (m : ℕ)
    → Runs b rs
    → m < length rs
    → b < (get_or rs m no_range).lo
Runs-get b [] m v h = absurd (omega arith)
Runs-get b (r ∷ rs) zero v h = v.0
Runs-get b (r ∷ rs) (suc m) v h = omega (arith, Runs-get (suc r.hi) rs m v.3 (omega arith))

starts_above-Ascends :
    (b c : ℕ) (rs : List CounterRange) → Runs b rs → Ascends (length rs) (starts_above c rs)
starts_above-Ascends b c [] v k m h p e = absurd (omega arith)
starts_above-Ascends b c (r ∷ rs) v zero zero h p e = e
starts_above-Ascends b c (r ∷ rs) v (suc k) zero h p e = absurd (omega arith)
starts_above-Ascends b c (r ∷ rs) v zero (suc m) h p e =
    ground (arith, Runs-get (suc r.hi) rs m v.3)
starts_above-Ascends b c (r ∷ rs) v (suc k) (suc m) h p e =
    starts_above-Ascends (suc r.hi) c rs v.3 k m (omega arith) (omega arith) e

FirstAt-SplitsAt :
    (c : ℕ) (rs : List CounterRange) (i : ℕ)
    → FirstAt (length rs) (starts_above c rs) i
    → SplitsAt i c rs
FirstAt-SplitsAt c [] zero f = tt
FirstAt-SplitsAt c [] (suc i) f = absurd (omega (arith, f.0))
FirstAt-SplitsAt c (r ∷ rs) zero f = ground (arith, f.2 0)
FirstAt-SplitsAt c (r ∷ rs) (suc i) f = (
  ground (arith, f.1 0),
  FirstAt-SplitsAt c rs i (
    omega (arith, f.0),
    λ k h. f.1 (suc k) (omega arith),
    λ k h p. f.2 (suc k) (omega arith) (omega arith),
  ),
)

pub search-SplitsAt :
    (b c : ℕ) (rs : List CounterRange)
    → Runs b rs
    → SplitsAt (search (length rs) (starts_above c rs)) c rs
search-SplitsAt b c rs v =
    FirstAt-SplitsAt c rs _
      (search-first (length rs) (starts_above c rs) (starts_above-Ascends b c rs v))
