-- ===== src/Traverse/Strategy/Errors.antt =====
-- Without a memory limit, with a context that is never done and with fuel, the one error is that a
-- query is too large.
use blood_trail.Prelude.{
  ℕ, suc, ◌*◌, ◌%◌, ◌^◌, ◌≤◌, ◌<◌, ◌≡◌, ◌⊎◌, refl, sym, ◌∙◌, inl, inr, Bool, true, false, List, [],
  ◌∷◌, none, some, length, if◌then◌else◌, All, arith, add64,
}
use mathlib.Core.Path.{subst}
use blood_trail.Traverse.Scratch.{Scratch, new_scratch, scratch_bytes}
use blood_trail.Traverse.Scratch.Laws.{new_scratch-IsScratch}
use blood_trail.Traverse.Adjacency.{View, InRange, Mirrored, Degree}
use blood_trail.Traverse.Bfs.{bfs_from}
use blood_trail.Traverse.Bfs.Distances.{bfs_from-Distances}
use blood_trail.Traverse.Budget.{MemBudget, over_limit, reserve_bytes}
use blood_trail.Traverse.Machine.Fuel.{tree}
use blood_trail.Traverse.Query.{Query, nodes}
use blood_trail.Traverse.Strategy.{
  too_large, Progress, each_of, fresh, Answer, answer, pair_step, pairs_loop, strategy_pairs,
  bfs_small_side, merge_pair, roots_step, roots_loop, merge_small_roots, terminals_step,
  terminals_loop, merge_small_terminals, small_merged, small_reserved, strategy_small_side,
  all_shortest_paths,
}
use blood_trail.Traverse.Strategy.Cases.{all_shortest_paths-cases}
use blood_trail.Traverse.Strategy.Calm.{
  each_of-All, Calm, Searched, pair_step-Calm, merge_pair-Calm, unless_done-Calm,
}

reserve_bytes-free :
    (n : ℕ) (b : MemBudget)
    → b.limit ≡ 0
    → reserve_bytes n b ≡ some (record b { reserved = add64 b.reserved n })
unfolding reserve_bytes over_limit
reserve_bytes-free n b h = let e : over_limit n b ≡ false = ground (arith, h) in rw (e) refl

-- No error, or the query is too large and there are no paths.
abbrev pub Quiet : Answer → Type 0
Quiet a = (a.1 ≡ none) ⊎ ((a.1 ≡ some too_large) × (a.0 ≡ []))

module _ (fuel : ℕ) (s : View) (q : Query) (w : ℕ) (ranged : InRange s) (mirrored : Mirrored s)
    (deg : Degree s w) (enough : tree w 127 ≤ fuel) (never : (n : ℕ) → q.ctx n ≡ false)
    (roots : All (λ u. u < s.node_count) (nodes q.roots s))
    (terminals : All (λ u. u < s.node_count) (nodes q.terminals s)) where
  abbrev Calms : Progress → Type 0
  Calms x = Calm fuel s q w ranged mirrored deg enough never x

  abbrev Searches : Bool → ℕ → ℕ × Scratch → Type 0
  Searches forward bound res =
      Searched fuel s q w ranged mirrored deg enough never forward bound res

  fresh-Calm : (b : MemBudget) (asked : ℕ) → b.limit ≡ 0 → Calms (fresh s.node_count b asked)
  fresh-Calm b asked h = record {
    no_fault = refl;
    free = h;
    sized = record {
      f = new_scratch-IsScratch s.node_count;
      t = new_scratch-IsScratch s.node_count;
      tmp = new_scratch-IsScratch s.node_count;
    };
  }

  bfs_small_side-Searched :
      (us : List ℕ) (forward : Bool) (bound asked : ℕ)
      → bound ≤ 127
      → All (λ u. u < s.node_count) us
      → (ds : List (ℕ × Scratch)) × ((bfs_small_side q.ctx s us forward q.kinds bound asked).0
          ≡ some ds)
        × All (Searches forward bound) ds
  unfolding bfs_small_side Searched
  bfs_small_side-Searched [] forward bound asked small h = ([], refl, tt)
  bfs_small_side-Searched (u ∷ us) forward bound asked small h =
      let (ds, e, a) = bfs_small_side-Searched us forward bound (suc asked) small h.1 in
      let b = bfs_from s u forward q.kinds bound (new_scratch s.node_count) in
      (
        (u, b.0) ∷ ds,
        rw (never asked, e) refl,
        (
          (
            b.1,
            bfs_from-Distances s u forward q.kinds bound (new_scratch s.node_count) ranged h.0 small
                (new_scratch-IsScratch s.node_count),
          ),
          a,
        ),
      )

  abbrev InView : ℕ → Type 0
  InView u = u < s.node_count

  merge_small_roots-Calm :
      (bound : ℕ) (x : Progress) (results : List (ℕ × Scratch))
      → bound ≤ 127
      → All (Searches true bound) results
      → Calms x
      → Calms (merge_small_roots fuel s q x results)
  unfolding merge_small_roots
  merge_small_roots-Calm bound x results small a h =
      each_of-All (Searches true bound) Calms (roots_loop fuel s q)
        (λ y res f g.
          each_of-All InView Calms (roots_step fuel s q res)
            (λ z t tn k.
              unless_done-Calm fuel s q w ranged mirrored deg enough never z
                (merge_pair fuel s q false res.1 res.0 t) k
                (λ v m.
                  merge_pair-Calm fuel s q w ranged mirrored deg enough never false bound res t v
                    small f m))
            (nodes q.terminals s) y terminals g)
        results x a h

  merge_small_terminals-Calm :
      (bound : ℕ) (x : Progress) (results : List (ℕ × Scratch))
      → bound ≤ 127
      → All (Searches false bound) results
      → Calms x
      → Calms (merge_small_terminals fuel s q x results)
  unfolding merge_small_terminals
  merge_small_terminals-Calm bound x results small a h =
      each_of-All InView Calms (terminals_loop fuel s q results)
        (λ y r rn g.
          unless_done-Calm fuel s q w ranged mirrored deg enough never y
            (each_of (terminals_step fuel s q r) results) g
            (λ z k.
              each_of-All (Searches false bound) Calms (terminals_step fuel s q r)
                (λ v res f m.
                  merge_pair-Calm fuel s q w ranged mirrored deg enough never true bound res r v
                    small f m)
                results z a k))
        (nodes q.roots s) x roots h

  answer-Quiet : (x : Progress) → Calms x → Quiet (answer x)
  answer-Quiet x h = inl h.no_fault

  strategy_pairs-Quiet :
      (bound asked : ℕ) (b : MemBudget)
      → bound ≤ 127
      → b.limit ≡ 0
      → Quiet (strategy_pairs fuel s q bound b asked)
  unfolding strategy_pairs
  strategy_pairs-Quiet bound asked b small free =
      answer-Quiet
        (each_of (pairs_loop fuel s q bound) (nodes q.roots s) (fresh s.node_count b asked)).0
        (each_of-All InView Calms (pairs_loop fuel s q bound)
          (λ x r rn h.
            each_of-All InView Calms (pair_step fuel s q bound r)
              (λ y t tn g.
                pair_step-Calm fuel s q w ranged mirrored deg enough never bound r y t small rn tn
                  g)
              (nodes q.terminals s) x terminals h)
          (nodes q.roots s) (fresh s.node_count b asked) roots (fresh-Calm b asked free))

  small_merged-Quiet :
      (bound : ℕ) (small_is_roots : Bool) (b : MemBudget) (asked : ℕ) (ds : List (ℕ × Scratch))
      → bound ≤ 127
      → b.limit ≡ 0
      → All (Searches small_is_roots bound) ds
      → Quiet (small_merged fuel s q small_is_roots b asked (some ds))
  small_merged-Quiet bound true b asked ds small free a =
      answer-Quiet (merge_small_roots fuel s q (fresh s.node_count b asked) ds)
        (merge_small_roots-Calm bound _ ds small a (fresh-Calm b asked free))
  small_merged-Quiet bound false b asked ds small free a =
      answer-Quiet (merge_small_terminals fuel s q (fresh s.node_count b asked) ds)
        (merge_small_terminals-Calm bound _ ds small a (fresh-Calm b asked free))

  small_nodes : (b : Bool) → All InView (nodes (if b then q.roots else q.terminals) s)
  small_nodes true = roots
  small_nodes false = terminals

  strategy_small_side-Quiet :
      (bound asked : ℕ) (b : MemBudget) (small_is_roots : Bool)
      → bound ≤ 127
      → b.limit ≡ 0
      → Quiet (strategy_small_side fuel s q bound b small_is_roots asked)
  unfolding strategy_small_side
  strategy_small_side-Quiet bound asked b side small free =
      let elems : List ℕ = nodes (if side then q.roots else q.terminals) s in
      let n : ℕ = scratch_bytes s.node_count * length elems % 2 ^ 64 in
      let r = bfs_small_side q.ctx s elems side q.kinds bound asked in
      let (ds, e, a) = bfs_small_side-Searched elems side bound asked small (small_nodes side) in
      let b' : MemBudget = record b { reserved = add64 b.reserved n } in
      subst (λ o. Quiet (small_reserved fuel s q bound side asked elems o))
        (sym (reserve_bytes-free n b free))
        (subst (λ o. Quiet (small_merged fuel s q side b' r.1 o)) (sym e)
          (small_merged-Quiet bound side b' r.1 ds small free a))

-- On a view whose neighbours are all nodes of it, at most w to a node, and whose edges in are its
-- edges out from the other end, for a query without a memory limit whose endpoints are nodes of the
-- view and whose context is never done, with fuel for a tree of height 127 and degree w: the answer
-- has no error, or the query is too large and the answer has no paths.
pub all_shortest_paths-Quiet :
    (fuel : ℕ) (s : View) (q : Query) (w : ℕ)
    → InRange s
    → Mirrored s
    → Degree s w
    → tree w 127 ≤ fuel
    → ((n : ℕ) → q.ctx n ≡ false)
    → All (λ u. u < s.node_count) (nodes q.roots s)
    → All (λ u. u < s.node_count) (nodes q.terminals s)
    → q.memory_limit ≡ 0
    → Quiet (all_shortest_paths fuel s q)
all_shortest_paths-Quiet fuel s q w ranged mirrored deg enough never roots terminals free =
    all_shortest_paths-cases fuel s q Quiet (λ e. let f = never 0 in cc) (inr (refl, refl))
      (λ d b small e.
        strategy_pairs-Quiet fuel s q w ranged mirrored deg enough never roots terminals d 1 b small
          (e ∙ free))
      (λ d b side small e.
        strategy_small_side-Quiet fuel s q w ranged mirrored deg enough never roots terminals d 1 b
          side small (e ∙ free))
