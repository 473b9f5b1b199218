-- ===== src/Watermark/Ledger.antt =====
-- internal/engine/watermark.go, watermarkLedger: which counter values are accounted for. The mutex
-- makes each method one step, so a method is a function from the ledger to the next one.
pub mod Runs
pub mod Insert
pub mod Advance
pub mod Size
pub mod Steps
pub mod History
mod Examples
use blood_trail.Prelude.{
  ℕ, zero, suc, Bool, true, false, ◌||◌, List, [], ◌∷◌, Option, none, some, ltb, leb, ◌==◌,
  if◌then◌else◌, length, get_elem?, get_or, search, inc64,
}

-- A run of consecutive resolved counter values, both ends included.
pub record CounterRange : Type 0 where
  pub lo : ℕ
  pub hi : ℕ

pub record Ledger : Type 0 where
  pub through : ℕ
  pub above : List CounterRange
  pub lost : Bool
  pub highest : ℕ

abbrev pub max_ledger_ranges : ℕ
max_ledger_ranges = 4096

-- The zero value.
abbrev pub new_ledger : Ledger
new_ledger = record { through = 0; above = []; lost = false; highest = 0 }

abbrev pub no_range : CounterRange
no_range = record { lo = 0; hi = 0 }

-- `above[i-1]` where `i > 0`.
abbrev pub before : List CounterRange → ℕ → Option CounterRange
before rs zero = none
before rs (suc i) = get_elem? rs i

abbrev pub index_before : ℕ → ℕ
index_before zero = zero
index_before (suc i) = i

abbrev pub set_hi : List CounterRange → ℕ → ℕ → List CounterRange
set_hi [] i h = []
set_hi (r ∷ rs) zero h = record r { hi = h } ∷ rs
set_hi (r ∷ rs) (suc i) h = r ∷ set_hi rs i h

abbrev pub set_lo : List CounterRange → ℕ → ℕ → List CounterRange
set_lo [] i l = []
set_lo (r ∷ rs) zero l = record r { lo = l } ∷ rs
set_lo (r ∷ rs) (suc i) l = r ∷ set_lo rs i l

abbrev pub remove_at : List CounterRange → ℕ → List CounterRange
remove_at [] i = []
remove_at (r ∷ rs) zero = rs
remove_at (r ∷ rs) (suc i) = r ∷ remove_at rs i

abbrev pub insert_range : List CounterRange → ℕ → CounterRange → List CounterRange
insert_range rs zero x = x ∷ rs
insert_range [] (suc i) x = x ∷ []
insert_range (r ∷ rs) (suc i) x = r ∷ insert_range rs i x

abbrev pub reaches : Option CounterRange → ℕ → Bool
reaches none counter = false
reaches (some r) counter = leb counter r.hi

abbrev pub extends_prev : Option CounterRange → ℕ → Bool
extends_prev none counter = false
extends_prev (some r) counter = inc64 r.hi == counter

abbrev pub extends_next : Option CounterRange → ℕ → Bool
extends_next none counter = false
extends_next (some r) counter = r.lo == inc64 counter

abbrev pub hi_of : Option CounterRange → ℕ
hi_of none = 0
hi_of (some r) = r.hi

-- The runs after `counter` is added at index i, or none where a new run would be one too many.
unfoldable pub edit : Bool → ℕ → ℕ → List CounterRange → Option (List CounterRange)
edit full i counter rs =
    if reaches (before rs i) counter
    then some rs
    else if extends_prev (before rs i) counter
    then (if extends_next (get_elem? rs i) counter
        then some (remove_at (set_hi rs (index_before i) (hi_of (get_elem? rs i))) i)
        else some (set_hi rs (index_before i) counter))
    else if extends_next (get_elem? rs i) counter
    then some (set_lo rs i counter)
    else if full
    then none
    else some (insert_range rs i (record { lo = counter; hi = counter }))

abbrev pub starts_above : ℕ → List CounterRange → ℕ → Bool
starts_above counter rs k = ltb counter (get_or rs k no_range).lo

abbrev pub after_edit : Ledger → Option (List CounterRange) → Ledger
after_edit l none = record l { above = []; lost = true }
after_edit l (some rs) = record l { above = rs }

unfoldable pub insert_locked : Ledger → ℕ → Ledger
insert_locked l counter = after_edit l (
    edit (leb max_ledger_ranges (length l.above))
      (search (length l.above) (starts_above counter l.above)) counter l.above)

-- The loop over the runs that start at or below through + 1.
unfoldable pub absorb : Ledger → List CounterRange → Ledger
absorb l [] = record l { above = [] }
absorb l (r ∷ rs) =
    let rest = absorb (record l { through = if ltb l.through r.hi then r.hi else l.through }) rs in
    if leb r.lo (inc64 l.through) then rest else record l { above = r ∷ rs }

unfoldable pub advance_locked : Ledger → Ledger
unfolding absorb
advance_locked l = absorb l l.above

unfoldable pub resolve : Ledger → ℕ → Ledger
resolve l counter =
    let l' : Ledger = record l { highest = if ltb l.highest counter then counter else l.highest } in
    if leb counter l.through || l.lost then l' else advance_locked (insert_locked l' counter)

unfoldable pub rebase : Ledger → ℕ → Ledger
rebase l floor =
    let l' : Ledger = record l { through = if ltb l.through floor then floor else l.through } in
    if l.lost
    then (if ltb floor l.highest then l' else advance_locked (record l' { lost = false }))
    else advance_locked l'

unfoldable pub resolved_through : Ledger → ℕ × Bool
resolved_through l = (l.through, if l.lost then false else true)
