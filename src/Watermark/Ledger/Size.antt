-- ===== src/Watermark/Ledger/Size.antt =====
-- A ledger never keeps more than `max_ledger_ranges` runs.
use blood_trail.Prelude.{
  ℕ, zero, suc, ◌≤◌, ◌≡◌, refl, ap, List, [], ◌∷◌, Option, none, some, arith, length, get_elem?,
  leb,
}
use blood_trail.Watermark.Ledger.{
  CounterRange, index_before, set_hi, set_lo, remove_at, insert_range, hi_of, edit,
}

length-set_hi : (rs : List CounterRange) (i h : ℕ) → length (set_hi rs i h) ≡ length rs
length-set_hi [] i h = refl
length-set_hi (r ∷ rs) zero h = refl
length-set_hi (r ∷ rs) (suc i) h = ap suc (length-set_hi rs i h)

length-set_lo : (rs : List CounterRange) (i h : ℕ) → length (set_lo rs i h) ≡ length rs
length-set_lo [] i h = refl
length-set_lo (r ∷ rs) zero h = refl
length-set_lo (r ∷ rs) (suc i) h = ap suc (length-set_lo rs i h)

length-remove_at-le : (rs : List CounterRange) (i : ℕ) → length (remove_at rs i) ≤ length rs
length-remove_at-le [] i = omega arith
length-remove_at-le (r ∷ rs) zero = omega arith
length-remove_at-le (r ∷ rs) (suc i) = omega (arith, length-remove_at-le rs i)

length-insert_range :
    (rs : List CounterRange) (i : ℕ) (x : CounterRange)
    → length (insert_range rs i x) ≡ suc (length rs)
length-insert_range rs zero x = refl
length-insert_range [] (suc i) x = refl
length-insert_range (r ∷ rs) (suc i) x = ap suc (length-insert_range rs i x)

abbrev pub AtMost : ℕ → Option (List CounterRange) → Type 0
AtMost n none = Unit {0}
AtMost n (some rs) = length rs ≤ n

pub edit-AtMost :
    (i c n : ℕ) (rs : List CounterRange)
    → length rs ≤ n
    → AtMost n (edit (leb n (length rs)) i c rs)
unfolding edit
edit-AtMost i c n rs h =
    let joined = set_hi rs (index_before i) (hi_of (get_elem? rs i)) in
    ground (
      arith,
      length-set_hi rs (index_before i) (hi_of (get_elem? rs i)),
      length-set_hi rs (index_before i) c,
      length-set_lo rs i c,
      length-remove_at-le joined i,
      length-insert_range rs i (record { lo = c; hi = c }),
    )
