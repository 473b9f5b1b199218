-- ===== src/Watermark/Ledger/Insert.antt =====
-- One value added to the runs: they stay sorted, disjoint and apart, and hold one value more.
use blood_trail.Prelude.{
  ℕ, zero, suc, ◌≤◌, ◌<◌, ◌≡◌, Bool, true, false, ◌||◌, List, [], ◌∷◌, Option, none, some, leb,
  ◌==◌, arith, inc64, inc64-suc, bigint_bound, inl, inr, Bool-cases,
}
use blood_trail.Watermark.Ledger.{CounterRange, edit}
use blood_trail.Watermark.Ledger.Runs.{Runs, in_runs, SplitsAt}

-- What the runs after an edit are, when there are any.
pub data Adds (b c : ℕ) (rs : List CounterRange) : Option (List CounterRange) → Type 0 where
  overflows : Adds b c rs none
  adds :
      {rs' : List CounterRange}
      → Runs b rs'
      → ((x : ℕ) → in_runs x rs' ≡ (in_runs x rs || x == c))
      → Adds b c rs (some rs')

abbrev with_head : CounterRange → Option (List CounterRange) → Option (List CounterRange)
with_head r none = none
with_head r (some rs) = some (r ∷ rs)

-- An edit past the second index leaves the head alone.
edit-cons :
    (full : Bool) (i c : ℕ) (r : CounterRange) (rs : List CounterRange)
    → edit full (suc (suc i)) c (r ∷ rs) ≡ with_head r (edit full (suc i) c rs)
unfolding edit
edit-cons full i c r rs = ground arith

with_head-Adds :
    (b c : ℕ) (r : CounterRange) (rs : List CounterRange) {o : Option (List CounterRange)}
    → b < r.lo
    → r.lo ≤ r.hi
    → r.hi ≤ bigint_bound
    → Adds (suc r.hi) c rs o
    → Adds b c (r ∷ rs) (with_head r o)
with_head-Adds b c r rs p q s overflows = overflows
with_head-Adds b c r rs p q s (adds v a) = adds (p, q, s, v) (λ x. ground (arith, a x))

-- At the front: a run of its own, or one more value at the start of the first run.
edit_front :
    (full : Bool) (b c : ℕ) (rs : List CounterRange)
    → Runs b rs
    → b < c
    → c ≤ bigint_bound
    → SplitsAt 0 c rs
    → Adds b c rs (edit full 0 c rs)
unfolding edit
edit_front true b c [] v h k s = overflows
edit_front false b c [] v h k s = adds (omega arith, omega arith, k, tt) (λ x. ground arith)
edit_front full b c (r ∷ rs) v h k s =
    let n = inc64-suc c k in
    elim (Bool-cases (r.lo == inc64 c)) [
      | inl e ↦ rw (e, edit) (adds (h, ground arith, v.2, v.3) (λ x. ground arith))
      | inr e ↦ elim (Bool-cases full) [
        | inl f ↦ rw (e, f, edit) overflows
        | inr f ↦
            rw (e, f, edit)
              (adds (h, omega arith, k, (ground arith, v.1, v.2, v.3)) (λ x. ground arith))
      ]
    ]

-- Just behind the first run.
edit_second :
    (full : Bool) (b c : ℕ) (r : CounterRange) (rs : List CounterRange)
    → Runs b (r ∷ rs)
    → b < c
    → c ≤ bigint_bound
    → r.lo ≤ c
    → SplitsAt 0 c rs
    → Adds b c (r ∷ rs) (edit full 1 c (r ∷ rs))
unfolding edit
edit_second full b c r [] v h k l s =
    let m = inc64-suc r.hi v.2 in
    elim (Bool-cases (leb c r.hi)) [
      | inl e ↦ rw (e, edit) (adds v (λ x. ground arith))
      | inr e ↦ elim (Bool-cases (inc64 r.hi == c)) [
        | inl f ↦ rw (e, f, edit) (adds (v.0, l, k, tt) (λ x. ground arith))
        | inr f ↦ elim (Bool-cases full) [
          | inl g ↦ rw (e, f, g, edit) overflows
          | inr g ↦
              rw (e, f, g, edit)
                (adds (v.0, v.1, v.2, (ground arith, omega arith, k, tt)) (λ x. ground arith))
        ]
      ]
    ]
edit_second full b c r (r' ∷ rs) v h k l s =
    let n = inc64-suc c k in
    let m = inc64-suc r.hi v.2 in
    let w = v.3 in
    elim (Bool-cases (leb c r.hi)) [
      | inl e ↦ rw (e, edit) (adds v (λ x. ground arith))
      | inr e ↦ elim (Bool-cases (inc64 r.hi == c)) [
        | inl f ↦ elim (Bool-cases (r'.lo == inc64 c)) [
          | inl g ↦ rw (e, f, g, edit) (adds (v.0, omega arith, w.2, w.3) (λ x. ground arith))
          | inr g ↦
              rw (e, f, g, edit)
                (adds (v.0, l, k, (ground arith, w.1, w.2, w.3)) (λ x. ground arith))
        ]
        | inr f ↦ elim (Bool-cases (r'.lo == inc64 c)) [
          | inl g ↦
              rw (e, f, g, edit)
                (adds (v.0, v.1, v.2, (ground arith, omega arith, w.2, w.3)) (λ x. ground arith))
          | inr g ↦ elim (Bool-cases full) [
            | inl q ↦ rw (e, f, g, q, edit) overflows
            | inr q ↦
                rw (e, f, g, q, edit)
                  (adds
                    (v.0, v.1, v.2, (ground arith, omega arith, k, (ground arith, w.1, w.2, w.3)))
                    (λ x. ground arith))
          ]
        ]
      ]
    ]

pub edit-Adds :
    (full : Bool) (i b c : ℕ) (rs : List CounterRange)
    → Runs b rs
    → b < c
    → c ≤ bigint_bound
    → SplitsAt i c rs
    → Adds b c rs (edit full i c rs)
edit-Adds full zero b c rs v h k s = edit_front full b c rs v h k s
edit-Adds full (suc i) b c [] v h k s = absurd s
edit-Adds full (suc zero) b c (r ∷ rs) v h k s = edit_second full b c r rs v h k s.0 s.1
edit-Adds full (suc (suc i)) b c (r ∷ []) v h k s = absurd s.1
edit-Adds full (suc (suc i)) b c (r ∷ r' ∷ rs) v h k s = rw (edit-cons full i c r (r' ∷ rs)) (
    with_head-Adds b c r (r' ∷ rs) v.0 v.1 v.2
      (edit-Adds full (suc i) (suc r.hi) c (r' ∷ rs) v.3 (omega arith) k s.1))
