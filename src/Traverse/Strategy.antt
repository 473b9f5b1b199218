-- ===== src/Traverse/Strategy.antt =====
-- internal/engine/traverse/traverse.go: AllShortestPaths and its two strategies. The workers of
-- bfsSmallSide each fill entries of their own, so they are one loop here. Scratch buffers are new
-- ones where the code takes them from a pool; a search resets its buffer first.
pub mod Cases
pub mod Limit
pub mod Free
pub mod PairFree
pub mod Calm
pub mod Errors
mod Examples
use blood_trail.Prelude.{
  ℕ, zero, suc, ◌+◌, ◌*◌, ◌%◌, ◌^◌, Bool, true, false, not, ◌&&◌, List, [], ◌∷◌, ◌++◌, Option, none,
  some, ltb, leb, ◌==◌, if◌then◌else◌, length,
}
use blood_trail.Snapshot.Bitset.Mask.{KindMask}
use blood_trail.Traverse.Scratch.{Scratch, new_scratch, scratch_bytes, get}
use blood_trail.Traverse.Adjacency.{View}
use blood_trail.Traverse.Sink.{FoundPath, new_sink, paths}
use blood_trail.Traverse.Budget.{
  MemBudget, reserve_bytes, Store, ShortestLevel, admit, final, path_cap,
}
use blood_trail.Traverse.Bfs.{bfs_from}
use blood_trail.Traverse.Enumerate.{enumerate}
use blood_trail.Traverse.Pair.{Buffers, pair_shortest, pair_found, pair_paths}
use blood_trail.Traverse.Query.{Query, unconstrained, count, nodes, is_all, is_one}

-- Out of fuel is a fault of the model alone.
pub data Fault : Type 0 where
  cancelled : Fault
  memory_limit : Fault
  too_large : Fault
  out_of_fuel : Fault

-- What a strategy carries from pair to pair. `asked` is how often the context was asked.
pub record Progress : Type 0 where
  pub level : ShortestLevel
  pub store : Store
  pub buffers : Buffers
  pub unchecked : ℕ
  pub asked : ℕ
  pub fault : Option Fault

-- A callback's new state, and whether it goes on.
abbrev pub Next : Type 0
Next = Progress × Bool

abbrev pub each_of {ℓ} : {A : Type ℓ} → (Progress → A → Next) → List A → Progress → Next
each_of f [] x = (x, true)
each_of f (i ∷ is) x = let rest = each_of f is (f x i).0 in if (f x i).1 then rest else f x i

abbrev pub failing : Fault → Progress → Next
failing e x = (record x { fault = some e }, false)

unfoldable pub cancel_err : (ℕ → Bool) → Progress → Progress × Bool
cancel_err ctx x = (record x { asked = suc x.asked }, ctx x.asked)

abbrev pub cancel_check_interval : ℕ
cancel_check_interval = 1024

unfoldable pub cancel_step : (ℕ → Bool) → Progress → Progress × Bool
unfolding cancel_err
cancel_step ctx x =
    if ltb (suc x.unchecked) cancel_check_interval
    then (record x { unchecked = suc x.unchecked }, false)
    else cancel_err ctx (record x { unchecked = 0 })

-- After an enumeration.
abbrev pub stored : Option (Store × Bool) → Progress → Next
stored none x = failing out_of_fuel x
stored (some (st, ok)) x =
    if ok then (record x { store = st }, true) else failing memory_limit (record x { store = st })

-- An enumeration under the cap, or whether to go on when there is none.
abbrev pub under_cap : Option ℕ → Bool → (ℕ → Store → Option (Store × Bool)) → Progress → Next
under_cap none go_on find x = (x, go_on)
under_cap (some cap) go_on find x = stored (find cap x.store) x

-- The body of the inner loop, once the pair is not passed over; `dist` is the length of its
-- shortest paths and `find` enumerates them. With the limit reached, ModeAll goes on until no pair
-- can be shorter.
unfoldable pub take_pair : Query → Option ℕ → (ℕ → Store → Option (Store × Bool)) → Progress → Next
take_pair q dist find x =
    if is_all q.mode
    then (let a = admit x.level dist x.store in
        let y : Progress = record x { level = a.0; store = a.1 } in
        if a.2
        then under_cap (path_cap q.limit y.store.sink.n false) (not (final y.level)) find y
        else (y, true))
    else under_cap (path_cap q.limit x.store.sink.n (is_one q.mode)) false find x

-- ModeAll does not search deeper than the shortest length so far.
abbrev pub search_depth : ℕ → ShortestLevel → ℕ
search_depth max_depth l = if ltb 0 l.best && ltb l.best max_depth then l.best else max_depth

-- ModeOne and ModeAllPerPair, with the cap that is left.
abbrev pub paths_under_cap : ℕ → View → Query → ℕ → ℕ → ℕ → Progress → Option ℕ → Next
paths_under_cap fuel s q max_depth r t x none = (x, false)
paths_under_cap fuel s q max_depth r t x (some cap) =
    let p = pair_paths fuel s r t q.kinds max_depth cap x.buffers x.store in
    stored p.0 (record x { buffers = p.1 })

unfoldable pub pair_step : ℕ → View → Query → ℕ → ℕ → Progress → ℕ → Next
pair_step fuel s q max_depth r x t =
    let c = cancel_err q.ctx x in
    let y = c.0 in
    if c.1
    then failing cancelled y
    else if q.exclude_self && r == t
    then (y, true)
    else if is_all q.mode
    then (let p = pair_shortest s r t q.kinds (search_depth max_depth y.level) y.buffers in
        take_pair q p.0 (λ cap st. pair_found fuel s r t q.kinds cap p.1 st p.0)
          (record y { buffers = p.1 }))
    else paths_under_cap fuel s q max_depth r t y (path_cap q.limit y.store.sink.n (is_one q.mode))

abbrev pub fresh : ℕ → MemBudget → ℕ → Progress
fresh n budget asked = record {
  level = record { best = 0 };
  store = record { budget = budget; sink = new_sink };
  buffers = record { f = new_scratch n; t = new_scratch n; tmp = new_scratch n };
  unchecked = 0;
  asked = asked;
  fault = none;
}

-- The paths, and the error.
abbrev pub Answer : Type 0
Answer = List FoundPath × Option Fault

abbrev pub answer : Progress → Answer
answer x = (paths x.store.sink, x.fault)

-- The inner loop for one root.
abbrev pub pairs_loop : ℕ → View → Query → ℕ → Progress → ℕ → Next
pairs_loop fuel s q max_depth x r = each_of (pair_step fuel s q max_depth r) (nodes q.terminals s) x

unfoldable pub strategy_pairs : ℕ → View → Query → ℕ → MemBudget → ℕ → Answer
strategy_pairs fuel s q max_depth budget asked =
    answer
      (each_of (pairs_loop fuel s q max_depth) (nodes q.roots s)
        (fresh s.node_count budget asked)).0

-- The distances of each element, none when the context is done; and how often it was asked.
unfoldable pub bfs_small_side :
    (ℕ → Bool) → View → List ℕ → Bool → Option KindMask → ℕ → ℕ → Option (List (ℕ × Scratch)) × ℕ
bfs_small_side ctx s [] forward kinds max_depth asked = (some [], asked)
bfs_small_side ctx s (u ∷ us) forward kinds max_depth asked =
    let rest = bfs_small_side ctx s us forward kinds max_depth (suc asked) in
    if ctx asked then (none, suc asked) else (elim (rest.0) [
      | none ↦ (none, rest.1)
      | some ds ↦ (
        some ((u, (bfs_from s u forward kinds max_depth (new_scratch s.node_count)).0) ∷ ds),
        rest.1,
      )
    ])

-- `int(d)` where the search reached the node: a byte of 128 or more is negative.
abbrev pub int_of : ℕ → Option ℕ
int_of d = if ltb d 128 then some d else none

-- One pair of a merge, once the search from the small side reached its other end.
abbrev pub merge_reached : ℕ → View → Query → Bool → Scratch → ℕ → Progress → Option ℕ → Next
merge_reached fuel s q forward sc u x none = (x, true)
merge_reached fuel s q forward sc u x (some d) =
    take_pair q (int_of d) (λ cap st. enumerate fuel s u sc q.kinds cap forward st) x

-- One pair of a merge: `u` is on the large side, `e` on the small one, whose distances `sc` are.
unfoldable pub merge_pair : ℕ → View → Query → Bool → Scratch → ℕ → ℕ → Progress → Next
merge_pair fuel s q forward sc e u x =
    if q.exclude_self && e == u then (x, true) else merge_reached fuel s q forward sc u x (get sc u)

-- Stops when the context was found done.
abbrev pub unless_done : Progress × Bool → (Progress → Next) → Next
unless_done c go = if c.1 then failing cancelled c.0 else go c.0

abbrev pub roots_step : ℕ → View → Query → ℕ × Scratch → Progress → ℕ → Next
roots_step fuel s q (r, sc) x t =
    unless_done (cancel_step q.ctx x) (merge_pair fuel s q false sc r t)

abbrev pub roots_loop : ℕ → View → Query → Progress → ℕ × Scratch → Next
roots_loop fuel s q x res = each_of (roots_step fuel s q res) (nodes q.terminals s) x

unfoldable pub merge_small_roots : ℕ → View → Query → Progress → List (ℕ × Scratch) → Progress
merge_small_roots fuel s q x results = (each_of (roots_loop fuel s q) results x).0

abbrev pub terminals_step : ℕ → View → Query → ℕ → Progress → ℕ × Scratch → Next
terminals_step fuel s q r x (t, sc) = merge_pair fuel s q true sc t r x

abbrev pub terminals_loop : ℕ → View → Query → List (ℕ × Scratch) → Progress → ℕ → Next
terminals_loop fuel s q results x r =
    unless_done (cancel_step q.ctx x) (each_of (terminals_step fuel s q r) results)

unfoldable pub merge_small_terminals : ℕ → View → Query → Progress → List (ℕ × Scratch) → Progress
merge_small_terminals fuel s q x results =
    (each_of (terminals_loop fuel s q results) (nodes q.roots s) x).0

-- After the searches, unless the context was done.
abbrev pub small_merged :
    ℕ → View → Query → Bool → MemBudget → ℕ → Option (List (ℕ × Scratch)) → Answer
small_merged fuel s q small_is_roots b asked none = ([], some cancelled)
small_merged fuel s q small_is_roots b asked (some results) =
    if small_is_roots
    then answer (merge_small_roots fuel s q (fresh s.node_count b asked) results)
    else answer (merge_small_terminals fuel s q (fresh s.node_count b asked) results)

-- After the reservation, unless it failed.
abbrev pub small_reserved : ℕ → View → Query → ℕ → Bool → ℕ → List ℕ → Option MemBudget → Answer
small_reserved fuel s q max_depth small_is_roots asked elems none = ([], some too_large)
small_reserved fuel s q max_depth small_is_roots asked elems (some b) =
    let r = bfs_small_side q.ctx s elems small_is_roots q.kinds max_depth asked in
    small_merged fuel s q small_is_roots b r.1 r.0

unfoldable pub strategy_small_side : ℕ → View → Query → ℕ → MemBudget → Bool → ℕ → Answer
strategy_small_side fuel s q max_depth budget small_is_roots asked =
    let elems : List ℕ = nodes (if small_is_roots then q.roots else q.terminals) s in
    small_reserved fuel s q max_depth small_is_roots asked elems
      (reserve_bytes (scratch_bytes s.node_count * length elems % 2 ^ 64) budget)

abbrev pub default_max_depth : ℕ
default_max_depth = 15

abbrev pub max_representable_depth : ℕ
max_representable_depth = 127

abbrev pub default_pair_budget : ℕ
default_pair_budget = 4096

abbrev pub default_side_budget : ℕ
default_side_budget = 16

abbrev pub or_default : ℕ → ℕ → ℕ
or_default n d = if n == 0 then d else n

unfoldable pub all_shortest_paths : ℕ → View → Query → Answer
all_shortest_paths fuel s q =
    let max_depth : ℕ = or_default q.max_depth default_max_depth in
    let budget : MemBudget = record { limit = q.memory_limit; used = 0; reserved = 0 } in
    let pair_budget : ℕ = or_default q.pair_budget default_pair_budget in
    let side_budget : ℕ = or_default q.side_budget default_side_budget in
    let roots_free : Bool = unconstrained q.roots in
    let terminals_free : Bool = unconstrained q.terminals in
    let root_count : ℕ = count q.roots s.node_count in
    let terminal_count : ℕ = count q.terminals s.node_count in
    if q.ctx 0
    then ([], some cancelled)
    else if ltb max_representable_depth max_depth
    then ([], some too_large)
    else if not roots_free && (not terminals_free && leb (root_count * terminal_count) pair_budget)
    then strategy_pairs fuel s q max_depth budget 1
    else if not roots_free && leb root_count side_budget
    then strategy_small_side fuel s q max_depth budget true 1
    else if not terminals_free && leb terminal_count side_budget
    then strategy_small_side fuel s q max_depth budget false 1
    else ([], some too_large)
