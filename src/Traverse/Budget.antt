-- ===== src/Traverse/Budget.antt =====
-- internal/engine/traverse/traverse.go: memBudget, shortestLevel and pathCap, which bound what an
-- enumeration may store. `memBudget` holds a mutex through each method, so each is one step.

use blood_trail.Prelude.{
  ℕ, suc, ◌+◌, ◌*◌, ◌%◌, ◌^◌, Bool, true, false, ◌&&◌, Option, none, some, ltb, leb, ◌==◌,
  if◌then◌else◌, add64,
}
use blood_trail.Traverse.Sink.{PathSink, reset_sink}

pub record MemBudget : Type 0 where
  pub limit : ℕ
  pub used : ℕ
  pub reserved : ℕ

-- `b.limit > 0 && b.reserved+b.used+n > b.limit`
unfoldable pub over_limit : ℕ → MemBudget → Bool
over_limit n b = ltb 0 b.limit && ltb b.limit (add64 (add64 b.reserved b.used) n)

-- None is ErrMemoryLimit.
unfoldable pub add_bytes : ℕ → MemBudget → Option MemBudget
add_bytes n b = if over_limit n b then none else some (record b { used = add64 b.used n })

-- None is the answer false.
unfoldable pub reserve_bytes : ℕ → MemBudget → Option MemBudget
reserve_bytes n b =
    if over_limit n b then none else some (record b { reserved = add64 b.reserved n })

unfoldable pub reset_budget : MemBudget → MemBudget
reset_budget b = record b { used = 0 }

-- `uint64(len(walk))*12 + 48`
abbrev pub path_bytes : ℕ → ℕ
path_bytes len = (len * 12 + 48) % 2 ^ 64

-- What the enumerations store into.
pub record Store : Type 0 where
  pub budget : MemBudget
  pub sink : PathSink

-- The least length so far, 0 where there is none.
pub record ShortestLevel : Type 0 where
  pub best : ℕ

-- Whether to enumerate a pair whose shortest paths have that length, none for -1.
unfoldable pub admit : ShortestLevel → Option ℕ → Store → ShortestLevel × Store × Bool
admit l none st = (l, st, false)
admit l (some d) st =
    if ltb d 1
    then (l, st, false)
    else if (if l.best == 0 then true else ltb d l.best)
    then (
      record l { best = d },
      record { budget = reset_budget st.budget; sink = reset_sink st.sink },
      true,
    )
    else (l, st, d == l.best)

unfoldable pub final : ShortestLevel → Bool
final l = l.best == 1

-- The cap of the next enumeration, none where the caller is done. No limit is 0.
unfoldable pub path_cap : ℕ → ℕ → Bool → Option ℕ
path_cap limit have one_more =
    if ltb 0 limit && leb limit have
    then none
    else some (
        if one_more
        then if (if limit == 0 then true else ltb (suc have) limit) then suc have else limit
        else limit)
