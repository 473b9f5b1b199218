-- ===== src/Traverse/Strategy/PairFree.antt =====
-- The search for a pair, without a memory limit and with fuel: it ends without an error, and leaves
-- buffers that the next one can use.
use blood_trail.Prelude.{
  ℕ, zero, suc, ◌+◌, ◌≤◌, ◌<◌, ◌≡◌, ◌≢◌, refl, sym, inl, inr, Bool, true, false, List, [], ◌∷◌,
  Option, none, some, ◌==◌, ==_iff, if_cases, Bool-cases, arith,
}
use mathlib.Core.Path.{subst}
use blood_trail.Snapshot.Bitset.Mask.{KindMask}
use blood_trail.Traverse.Scratch.{Scratch, put, reset}
use blood_trail.Traverse.Scratch.Laws.{IsScratch, put-IsScratch, reset-IsScratch}
use blood_trail.Traverse.Adjacency.{View, InRange, Mirrored, Degree}
use blood_trail.Traverse.Bfs.{bfs_from, rounds_from}
use blood_trail.Traverse.Bfs.Expansion.{expand-Expands}
use blood_trail.Traverse.Budget.{Store}
use blood_trail.Traverse.Machine.Fuel.{tree, tree-le, steps-tree}
use blood_trail.Traverse.Enumerate.Chains.{Distances-Labels}
use blood_trail.Traverse.Pair.{
  Buffers, Meet, meet_start, meet_rounds, search_again, pair_turn, pair_enumerate, pair_found,
  pair_shortest,
}
use blood_trail.Traverse.Pair.Meets.{meet_rounds-Meets}
use blood_trail.Traverse.Pair.Shortest.{IsFound, Meets-start, pair_shortest-IsFound}
use blood_trail.Traverse.Pair.Enumerated.{falls, root-On}
use blood_trail.Traverse.Pair.Results.{turn-length}
use blood_trail.Traverse.Strategy.Free.{Free, Fine, run-Fine}

rounds_from-IsScratch :
    (s : View) (forward : Bool) (kinds : Option KindMask) (rounds d : ℕ) (us : List ℕ) (deepest : ℕ)
    (sc : Scratch)
    → InRange s
    → IsScratch s.node_count sc
    → IsScratch s.node_count (rounds_from s forward kinds rounds d us deepest sc).0
unfolding rounds_from
rounds_from-IsScratch s forward kinds zero d us deepest sc r h = h
rounds_from-IsScratch s forward kinds (suc k) d [] deepest sc r h = h
rounds_from-IsScratch s forward kinds (suc k) d (u ∷ us) deepest sc r h =
    rounds_from-IsScratch s forward kinds k (d + 1) _ _ _ r
      (expand-Expands s forward kinds d (record { sc = sc; next = [] }) (u ∷ us) r h).scratch

pub bfs_from-IsScratch :
    (s : View) (seed : ℕ) (forward : Bool) (kinds : Option KindMask) (bound : ℕ) (sc : Scratch)
    → InRange s
    → seed < s.node_count
    → IsScratch s.node_count sc
    → IsScratch s.node_count (bfs_from s seed forward kinds bound sc).0
unfolding bfs_from
bfs_from-IsScratch s seed forward kinds bound sc r p h =
    rounds_from-IsScratch s forward kinds bound 0 (seed ∷ []) 0 (put (reset sc) seed 0) r
      (put-IsScratch s.node_count (reset sc) seed 0 p (reset-IsScratch s.node_count sc h))

-- The three buffers are buffers of that size.
pub record Sized (n : ℕ) (b : Buffers) : Type 0 where
  pub f : IsScratch n b.f
  pub t : IsScratch n b.t
  pub tmp : IsScratch n b.tmp

search_again-Sized :
    (s : View) (r t : ℕ) (kinds : Option KindMask) (b : Buffers) (m : Meet) (o : Option ℕ)
    → InRange s
    → r < s.node_count
    → t < s.node_count
    → IsScratch s.node_count m.sc_f
    → IsScratch s.node_count m.sc_b
    → Sized s.node_count b
    → Sized s.node_count (search_again s r t kinds b m o).1
search_again-Sized s r t kinds b m none ra rn tn hf hb h = record { f = hf; t = h.t; tmp = hb }
search_again-Sized s r t kinds b m (some d) ra rn tn hf hb h = record {
  f = bfs_from-IsScratch s r true kinds d m.sc_f ra rn hf;
  t = bfs_from-IsScratch s t false kinds d b.t ra tn h.t;
  tmp = hb;
}

pub pair_shortest-Sized :
    (s : View) (r t : ℕ) (kinds : Option KindMask) (bound : ℕ) (b : Buffers)
    → InRange s
    → r < s.node_count
    → t < s.node_count
    → bound ≤ 127
    → Sized s.node_count b
    → Sized s.node_count (pair_shortest s r t kinds bound b).1
unfolding pair_shortest
pair_shortest-Sized s r t kinds bound b ra rn tn small h =
    let m0 = meet_start r t b.f b.tmp in
    let m = meet_rounds s kinds bound bound m0 in
    if_cases (λ (x : Option ℕ × Buffers). Sized s.node_count x.1) (r == t) (λ _. h)
      (λ e.
        let (g, _, _) =
          meet_rounds-Meets s kinds ra r t bound bound m0 small (omega arith)
            (Meets-start s kinds ra r t b.f b.tmp (apart r t e) rn tn h.f h.tmp) in
        search_again-Sized s r t kinds b m m.best ra rn tn g.front.scratch g.back.scratch h)
  where
    apart : (r t : ℕ) → (r == t) ≡ false → r ≢ t
    apart r t e = λ q. let x = (==_iff r t).1 q in cc

found-Fine :
    (fuel : ℕ) (s : View) (r t : ℕ) (kinds : Option KindMask) (bound c w : ℕ) (st : Store)
    (o : Option ℕ) (b : Buffers)
    → Mirrored s
    → bound ≤ 127
    → Degree s w
    → tree w 127 ≤ fuel
    → Free st
    → IsFound s kinds r t bound (o, b)
    → Fine (pair_found fuel s r t kinds c b st o)
unfolding pair_enumerate
found-Fine fuel s r t kinds bound c w st none b mi small deg enough free i =
    ((st, true), refl, (free, refl))
found-Fine fuel s r t kinds bound c w st (some d) b mi small deg enough free
      ((one, le, (es, ch, len), least), more) =
    let ((n, df), (k, db)) = more d refl in
    let near : d ≤ 127 = omega (arith, le, small) in
    let l = Distances-Labels s true kinds t d (b.t, k) mi db in
    let on = root-On s kinds r t d n b.f b.t near df l least es ch len in
    let turn = pair_turn s t d kinds b.f b.t in
    run-Fine turn c false d r fuel st near (falls s kinds r t d n b.f b.t near df l least d r 1 on)
      (omega (
        arith,
        enough,
        tree-le w d 127 near,
        steps-tree turn w (turn-length s t d kinds b.f b.t w deg) d 1 r,
      ))
      free

pair_shortest-same :
    (s : View) (r t : ℕ) (kinds : Option KindMask) (bound : ℕ) (b : Buffers)
    → (r == t) ≡ true
    → pair_shortest s r t kinds bound b ≡ (none, b)
unfolding pair_shortest
pair_shortest-same s r t kinds bound b e = rw (e, pair_shortest) refl

-- Also where the root is the terminal: there is no path then.
pub pair_found-Fine :
    (fuel : ℕ) (s : View) (r t : ℕ) (kinds : Option KindMask) (bound c w : ℕ) (st : Store)
    (b : Buffers)
    → InRange s
    → Mirrored s
    → r < s.node_count
    → t < s.node_count
    → bound ≤ 127
    → Sized s.node_count b
    → Degree s w
    → tree w 127 ≤ fuel
    → Free st
    → Fine (
        pair_found fuel s r t kinds c
          (pair_shortest s r t kinds bound b).1
          st
          (pair_shortest s r t kinds bound b).0)
pair_found-Fine fuel s r t kinds bound c w st b ra mi rn tn small h deg enough free =
    elim (Bool-cases (r == t)) [
      | inl e ↦
          subst (λ x. Fine (pair_found fuel s r t kinds c x.1 st x.0))
            (sym (pair_shortest-same s r t kinds bound b e)) ((st, true), refl, (free, refl))
      | inr e ↦
          found-Fine fuel s r t kinds bound c w st (pair_shortest s r t kinds bound b).0
            (pair_shortest s r t kinds bound b).1 mi small deg enough free
            (pair_shortest-IsFound s r t kinds bound b ra mi (λ q. let x = (==_iff r t).1 q in cc)
              rn tn small h.f h.t h.tmp)
    ]
