-- ===== src/Traverse/Strategy/Limit.antt =====
-- No answer has more paths than the query's limit.
use blood_trail.Prelude.{
  ℕ, suc, ◌*◌, ◌%◌, ◌^◌, ◌≤◌, ◌<◌, ◌≡◌, refl, Bool, true, false, not, ◌&&◌, List, Option, none,
  some, length, ltb, ◌==◌, if◌then◌else◌, if_cases, arith,
}
use blood_trail.Traverse.Scratch.{Scratch, get, scratch_bytes}
use blood_trail.Traverse.Adjacency.{View}
use blood_trail.Traverse.Sink.{reset_sink}
use blood_trail.Traverse.Budget.{
  MemBudget, Store, ShortestLevel, admit, final, path_cap, reserve_bytes,
}
use blood_trail.Traverse.Machine.Keeps.{Under, Within, Ends, run-Ends, deposit-Under}
use blood_trail.Traverse.Enumerate.{enumerate, enumerate_turn}
use blood_trail.Traverse.Pair.{
  pair_shortest, pair_enumerate, pair_paths, pair_turn, pair_found, Buffers,
}
use blood_trail.Traverse.Query.{Query, is_all, is_one, nodes}
use blood_trail.Traverse.Strategy.Cases.{each_of-keeps, all_shortest_paths-cases}
use blood_trail.Traverse.Strategy.{
  Progress, Next, each_of, cancel_err, cancel_step, stored, under_cap, unless_done, roots_step,
  roots_loop, terminals_step, terminals_loop, pairs_loop, small_merged, small_reserved,
  paths_under_cap, merge_reached, search_depth, int_of, take_pair, pair_step, fresh, Answer, answer,
  strategy_pairs, bfs_small_side, merge_pair, merge_small_roots, merge_small_terminals,
  strategy_small_side, all_shortest_paths,
}
use blood_trail.Traverse.Sink.Counted.{paths-length}

Under-Within : (c : ℕ) (st : Store) → Under c st → Within c st
Under-Within c st h = record { counted = h.counted; most = omega (arith, h.fewer) }

module _ (q : Query) (some_limit : 0 < q.limit) where
  abbrev Bounded : Progress → Type 0
  Bounded x = Within q.limit x.store

  stored-Bounded :
      (o : Option (Store × Bool)) (x : Progress)
      → Bounded x
      → Ends (λ r. Within q.limit r.0) o
      → Bounded (stored o x).0
  stored-Bounded none x h e = h
  stored-Bounded (some (st, ok)) x h e = if_cases (λ (y : Next). Bounded y.0) ok (λ _. e) (λ _. e)

  -- An enumeration under the cap that `path_cap` gives.
  abbrev Capped : (ℕ → Store → Option (Store × Bool)) → Type 0
  Capped find = (c : ℕ) (st : Store) → Under c st → Ends (λ r. Within c r.0) (find c st)

  path_cap-Under :
      (one_more : Bool) (c have : ℕ)
      → path_cap q.limit have one_more ≡ some c
      → (have < c) × (c ≤ q.limit)
  unfolding path_cap
  path_cap-Under one_more c have e = (ground (arith, e, some_limit), ground (arith, e, some_limit))

  Ends-le :
      (o : Option (Store × Bool)) (c : ℕ)
      → c ≤ q.limit
      → Ends (λ r. Within c r.0) o
      → Ends (λ r. Within q.limit r.0) o
  Ends-le none c b e = tt
  Ends-le (some r) c b e = record { counted = e.counted; most = omega (arith, e.most, b) }

  under_cap-Bounded :
      (o : Option ℕ) (one_more go_on : Bool) (find : ℕ → Store → Option (Store × Bool))
      (x : Progress)
      → Capped find
      → Bounded x
      → path_cap q.limit x.store.sink.n one_more ≡ o
      → Bounded (under_cap o go_on find x).0
  under_cap-Bounded none one_more go_on find x k h e = h
  under_cap-Bounded (some c) one_more go_on find x k h e =
      let (a, b) = path_cap-Under one_more c x.store.sink.n e in
      stored-Bounded (find c x.store) x h
        (Ends-le (find c x.store) c b (k c x.store (record { counted = h.counted; fewer = a })))

  admit-Within :
      (l : ShortestLevel) (d : Option ℕ) (st : Store)
      → Within q.limit st
      → Within q.limit (admit l d st).1
  unfolding admit reset_sink
  admit-Within l none st h = h
  admit-Within l (some d) st h =
      if_cases (λ (a : ShortestLevel × Store × Bool). Within q.limit a.1) (ltb d 1) (λ _. h)
        (λ _.
          if_cases (λ (a : ShortestLevel × Store × Bool). Within q.limit a.1)
            (if l.best == 0 then true else ltb d l.best)
            (λ _. record { counted = refl; most = omega arith }) (λ _. h))

  take_pair-Bounded :
      (dist : Option ℕ) (find : ℕ → Store → Option (Store × Bool)) (x : Progress)
      → Capped find
      → Bounded x
      → Bounded (take_pair q dist find x).0
  unfolding take_pair
  take_pair-Bounded dist find x k h =
      let a = admit x.level dist x.store in
      let y : Progress = record x { level = a.0; store = a.1 } in
      let h' : Bounded y = admit-Within x.level dist x.store h in
      if_cases (λ (n : Next). Bounded n.0) (is_all q.mode)
        (λ _.
          if_cases (λ (n : Next). Bounded n.0) a.2
            (λ _. under_cap-Bounded _ false (not (final y.level)) find y k h' refl) (λ _. h'))
        (λ _. under_cap-Bounded _ (is_one q.mode) false find x k h refl)

  enumerate-Capped :
      (fuel : ℕ) (s : View) (u : ℕ) (sc : Scratch) (forward : Bool)
      → Capped (λ c st. enumerate fuel s u sc q.kinds c forward st)
  unfolding enumerate
  enumerate-Capped fuel s u sc forward c st h =
      run-Ends (Under c) (λ r. Within c r.0) (enumerate_turn s sc q.kinds forward) c (not forward)
        (λ ns ks st. deposit-Under c (not forward) ns ks st) (λ st. Under-Within c st) fuel _ _ h

  pair_enumerate-Capped :
      (fuel : ℕ) (s : View) (r t d : ℕ) (f b : Scratch)
      → Capped (λ c st. pair_enumerate fuel s r t d q.kinds c f b st)
  unfolding pair_enumerate
  pair_enumerate-Capped fuel s r t d f b c st h =
      run-Ends (Under c) (λ r. Within c r.0) (pair_turn s t d q.kinds f b) c false
        (λ ns ks st. deposit-Under c false ns ks st) (λ st. Under-Within c st) fuel _ _ h

  pair_found-Capped :
      (fuel : ℕ) (s : View) (r t : ℕ) (b : Buffers) (o : Option ℕ)
      → Capped (λ c st. pair_found fuel s r t q.kinds c b st o)
  pair_found-Capped fuel s r t b none c st h = Under-Within c st h
  pair_found-Capped fuel s r t b (some d) c st h = pair_enumerate-Capped fuel s r t d b.f b.t c st h

  paths_under_cap-Bounded :
      (fuel : ℕ) (s : View) (max_depth r t : ℕ) (x : Progress) (o : Option ℕ)
      → Bounded x
      → path_cap q.limit x.store.sink.n (is_one q.mode) ≡ o
      → Bounded (paths_under_cap fuel s q max_depth r t x o).0
  unfolding pair_paths
  paths_under_cap-Bounded fuel s max_depth r t x none h e = h
  paths_under_cap-Bounded fuel s max_depth r t x (some c) h e =
      let p = pair_shortest s r t q.kinds max_depth x.buffers in
      let (a, b) = path_cap-Under (is_one q.mode) c x.store.sink.n e in
      let o = pair_found fuel s r t q.kinds c p.1 x.store p.0 in
      stored-Bounded o (record x { buffers = p.1 }) h
        (Ends-le o c b (
          pair_found-Capped fuel s r t p.1 p.0 c x.store
            (record { counted = h.counted; fewer = a })))

  pair_step-Bounded :
      (fuel : ℕ) (s : View) (max_depth r : ℕ) (x : Progress) (t : ℕ)
      → Bounded x
      → Bounded (pair_step fuel s q max_depth r x t).0
  unfolding pair_step cancel_err pair_paths
  pair_step-Bounded fuel s max_depth r x t h =
      let y : Progress = (cancel_err q.ctx x).0 in
      let p = pair_shortest s r t q.kinds (search_depth max_depth y.level) y.buffers in
      if_cases (λ (n : Next). Bounded n.0) (cancel_err q.ctx x).1 (λ _. h)
        (λ _.
          if_cases (λ (n : Next). Bounded n.0) (q.exclude_self && r == t) (λ _. h)
            (λ _.
              if_cases (λ (n : Next). Bounded n.0) (is_all q.mode)
                (λ _.
                  take_pair-Bounded p.0 _ (record y { buffers = p.1 })
                    (pair_found-Capped fuel s r t p.1 p.0) h)
                (λ _. paths_under_cap-Bounded fuel s max_depth r t y _ h refl)))

  merge_pair-Bounded :
      (fuel : ℕ) (s : View) (forward : Bool) (sc : Scratch) (e u : ℕ) (x : Progress)
      → Bounded x
      → Bounded (merge_pair fuel s q forward sc e u x).0
  unfolding merge_pair
  merge_pair-Bounded fuel s forward sc e u x h =
      if_cases (λ (n : Next). Bounded n.0) (q.exclude_self && e == u) (λ _. h)
        (λ _. reached_Bounded (get sc u))
    where
      reached_Bounded : (o : Option ℕ) → Bounded (merge_reached fuel s q forward sc u x o).0
      reached_Bounded none = h
      reached_Bounded (some d) =
          take_pair-Bounded (int_of d) _ x (enumerate-Capped fuel s u sc forward) h

  step-Bounded : (x : Progress) → Bounded x → Bounded (cancel_step q.ctx x).0
  unfolding cancel_step cancel_err
  step-Bounded x h =
      if_cases (λ (y : Next). Bounded y.0) (ltb (suc x.unchecked) 1024) (λ _. h) (λ _. h)

  unless_done-Bounded :
      (x : Progress) (go : Progress → Next)
      → Bounded x
      → ((y : Progress) → Bounded y → Bounded (go y).0)
      → Bounded (unless_done (cancel_step q.ctx x) go).0
  unless_done-Bounded x go h k =
      if_cases (λ (n : Next). Bounded n.0) (cancel_step q.ctx x).1 (λ _. step-Bounded x h)
        (λ _. k (cancel_step q.ctx x).0 (step-Bounded x h))

  merge_small_roots-Bounded :
      (fuel : ℕ) (s : View) (x : Progress) (results : List (ℕ × Scratch))
      → Bounded x
      → Bounded (merge_small_roots fuel s q x results)
  unfolding merge_small_roots
  merge_small_roots-Bounded fuel s x results h =
      each_of-keeps Bounded (roots_loop fuel s q)
        (λ y res g.
          each_of-keeps Bounded (roots_step fuel s q res)
            (λ z t k.
              unless_done-Bounded z (merge_pair fuel s q false res.1 res.0 t) k
                (merge_pair-Bounded fuel s false res.1 res.0 t))
            (nodes q.terminals s) y g)
        results x h

  merge_small_terminals-Bounded :
      (fuel : ℕ) (s : View) (x : Progress) (results : List (ℕ × Scratch))
      → Bounded x
      → Bounded (merge_small_terminals fuel s q x results)
  unfolding merge_small_terminals
  merge_small_terminals-Bounded fuel s x results h =
      each_of-keeps Bounded (terminals_loop fuel s q results)
        (λ y r g. unless_done-Bounded y (each_of (terminals_step fuel s q r) results) g (λ z k.
          each_of-keeps Bounded (terminals_step fuel s q r)
            (λ w res m. merge_pair-Bounded fuel s true res.1 res.0 r w m) results z k))
        (nodes q.roots s) x h

  abbrev Few : Answer → Type 0
  Few a = length a.0 ≤ q.limit

  answer-Few : (x : Progress) → Bounded x → Few (answer x)
  answer-Few x h = omega (arith, paths-length x.store.sink, h.counted, h.most)

  fresh-Bounded : (n asked : ℕ) (b : MemBudget) → Bounded (fresh n b asked)
  fresh-Bounded n asked b = record { counted = refl; most = omega arith }

  strategy_pairs-Few :
      (fuel : ℕ) (s : View) (max_depth asked : ℕ) (b : MemBudget)
      → Few (strategy_pairs fuel s q max_depth b asked)
  unfolding strategy_pairs
  strategy_pairs-Few fuel s max_depth asked b =
      answer-Few
        (each_of (pairs_loop fuel s q max_depth) (nodes q.roots s) (fresh s.node_count b asked)).0
        (each_of-keeps Bounded (pairs_loop fuel s q max_depth)
          (λ x r h.
            each_of-keeps Bounded (pair_step fuel s q max_depth r)
              (λ y t g. pair_step-Bounded fuel s max_depth r y t g) (nodes q.terminals s) x h)
          (nodes q.roots s) (fresh s.node_count b asked) (fresh-Bounded s.node_count asked b))

  small_merged-Few :
      (fuel : ℕ) (s : View) (roots : Bool) (b : MemBudget) (asked : ℕ)
      (o : Option (List (ℕ × Scratch)))
      → Few (small_merged fuel s q roots b asked o)
  small_merged-Few fuel s roots b asked none = omega arith
  small_merged-Few fuel s roots b asked (some results) =
      let h = fresh-Bounded s.node_count asked b in
      if_cases Few roots
        (λ _.
          answer-Few (merge_small_roots fuel s q (fresh s.node_count b asked) results)
            (merge_small_roots-Bounded fuel s _ results h))
        (λ _.
          answer-Few (merge_small_terminals fuel s q (fresh s.node_count b asked) results)
            (merge_small_terminals-Bounded fuel s _ results h))

  strategy_small_side-Few :
      (fuel : ℕ) (s : View) (max_depth asked : ℕ) (b : MemBudget) (roots : Bool)
      → Few (strategy_small_side fuel s q max_depth b roots asked)
  unfolding strategy_small_side
  strategy_small_side-Few fuel s max_depth asked b roots =
      let elems : List ℕ = nodes (if roots then q.roots else q.terminals) s in
      reserved_few elems (reserve_bytes (scratch_bytes s.node_count * length elems % 2 ^ 64) b)
    where
      reserved_few :
          (elems : List ℕ) (o : Option MemBudget)
          → Few (small_reserved fuel s q max_depth roots asked elems o)
      reserved_few elems none = omega arith
      reserved_few elems (some b') =
          let r = bfs_small_side q.ctx s elems roots q.kinds max_depth asked in
          small_merged-Few fuel s roots b' r.1 r.0

-- With a limit, a query of any mode on any view is answered with at most that many paths, also
-- where it is answered with an error.
pub all_shortest_paths-limit :
    (fuel : ℕ) (s : View) (q : Query)
    → 0 < q.limit
    → length (all_shortest_paths fuel s q).0 ≤ q.limit
all_shortest_paths-limit fuel s q h =
    all_shortest_paths-cases fuel s q (Few q h) (λ _. omega arith) (omega arith)
      (λ d b _ _. strategy_pairs-Few q h fuel s d 1 b)
      (λ d b roots _ _. strategy_small_side-Few q h fuel s d 1 b roots)
