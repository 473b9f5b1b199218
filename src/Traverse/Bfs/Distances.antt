-- ===== src/Traverse/Bfs/Distances.antt =====
-- The distances that the breadth-first search leaves are the hop counts over allowed edges.
use blood_trail.Prelude.{
  ℕ, zero, suc, ◌+◌, ◌≤◌, ◌<◌, ◌≡◌, sym, Bool, true, List, [], ◌∷◌, Option, none, some, ◌==◌,
  if◌then◌else◌, arith, mem, mem-append, inl, inr, Option-cases, Bool-cases, List-cases,
}
use mathlib.Core.Path.{subst}
use native.Mathlib.Decide.{dec_le}
use blood_trail.Snapshot.Bitset.Mask.{KindMask}
use blood_trail.Traverse.Scratch.{Scratch, reset, get, put, int8}
use blood_trail.Traverse.Scratch.Laws.{
  IsScratch, reset-IsScratch, put-IsScratch, get-put, get-reset,
}
use blood_trail.Traverse.Adjacency.{View, neighbours, targets, InRange}
use blood_trail.Traverse.Bfs.{Level, expand, deepest_after, rounds_from, bfs_from}
use blood_trail.Traverse.Bfs.Expansion.{met, Expands, expand-Expands}

-- An allowed edge leads from u to v, against the edges when the search is not forward.
abbrev pub Hop : View → Bool → Option KindMask → ℕ → ℕ → Type 0
Hop s forward kinds u v = mem v (targets kinds (neighbours s forward u)) ≡ true

-- A walk of that many hops from the seed.
pub data Hops (s : View) (forward : Bool) (kinds : Option KindMask) (seed : ℕ)
    : ℕ → ℕ → Type 0 where
  here : Hops s forward kinds seed zero seed
  hop :
      {d u v : ℕ}
      → Hops s forward kinds seed d u
      → Hop s forward kinds u v
      → Hops s forward kinds seed (suc d) v

-- What a search leaves behind: the least number of hops of each node that is at most `bound`
-- away, no distance at the others, and the largest distance as the result.
pub record Distances (s : View) (forward : Bool) (kinds : Option KindMask) (seed bound : ℕ)
    (r : Scratch × ℕ) : Type 0 where
  pub sound :
      (v e : ℕ) → get r.0 v ≡ some e → (e ≤ bound) × (e ≤ r.1) × Hops s forward kinds seed e v
  pub complete :
      (m v : ℕ)
      → Hops s forward kinds seed m v
      → m ≤ bound
      → (e : ℕ) × (e ≤ m) × (get r.0 v ≡ some e)
  pub attained : (v : ℕ) × (get r.0 v ≡ some r.1)

deepest_after-ge :
    (d deepest : ℕ) (ns : List ℕ) → deepest ≤ d → deepest ≤ deepest_after d deepest ns
deepest_after-ge d deepest [] h = omega arith
deepest_after-ge d deepest (n ∷ ns) h = omega arith

deepest_after-new :
    (d deepest v : ℕ) (ns : List ℕ) → mem v ns ≡ true → deepest_after d deepest ns ≡ suc d
deepest_after-new d deepest v [] h = cc
deepest_after-new d deepest v (n ∷ ns) h = omega arith

deepest_after-le : (d deepest : ℕ) (ns : List ℕ) → deepest ≤ d → deepest_after d deepest ns ≤ suc d
deepest_after-le d deepest [] h = omega arith
deepest_after-le d deepest (n ∷ ns) h = omega arith

module _ (s : View) (forward : Bool) (kinds : Option KindMask) where
  mem-met :
      (u v : ℕ) (us : List ℕ)
      → mem u us ≡ true
      → Hop s forward kinds u v
      → mem v (met s forward kinds us) ≡ true
  mem-met u v [] m h = cc
  mem-met u v (w ∷ us) m h = ground (
    arith,
    mem-append v (targets kinds (neighbours s forward w)) (met s forward kinds us),
    mem-met u v us,
  )

  met-mem :
      (v : ℕ) (us : List ℕ)
      → mem v (met s forward kinds us) ≡ true
      → (u : ℕ) × (mem u us ≡ true) × Hop s forward kinds u v
  met-mem v [] m = cc
  met-mem v (w ∷ us) m = elim (Bool-cases (mem v (targets kinds (neighbours s forward w)))) [
    | inl e ↦ (w, ground arith, e)
    | inr e ↦
        let split =
          mem-append v (targets kinds (neighbours s forward w)) (met s forward kinds us) in
        let (u, a, h) = met-mem v us (ground (arith, split)) in (u, ground arith, h)
  ]

  module _ (seed : ℕ) (ranged : InRange s) where
    abbrev pub Walk : ℕ → ℕ → Type 0
    Walk d v = Hops s forward kinds seed d v

    -- What holds before round d.
    pub record Inv (d deepest : ℕ) (frontier : List ℕ) (sc : Scratch) : Type 0 where
      pub scratch : IsScratch s.node_count sc
      pub sound : (v e : ℕ) → get sc v ≡ some e → (e ≤ d) × (e ≤ deepest) × Walk e v
      pub complete : (m v : ℕ) → Walk m v → m ≤ d → (e : ℕ) × (e ≤ m) × (get sc v ≡ some e)
      pub queued : (v : ℕ) → mem v frontier ≡ true → get sc v ≡ some d
      pub waiting : (v : ℕ) → get sc v ≡ some d → mem v frontier ≡ true
      pub shallow : deepest ≤ d
      pub attained : (v : ℕ) × (get sc v ≡ some deepest)

    abbrev pub start_level : Scratch → Level
    start_level sc = record { sc = sc; next = [] }

    -- A distance that is written in round d fits an int8.
    fits : (d : ℕ) → d < 127 → int8 (d + 1) ≡ suc d
    fits d h = omega arith

    module _ (d deepest : ℕ) (us : List ℕ) (sc : Scratch) (l : Level) (p : d < 127)
        (i : Inv d deepest us sc)
        (x : Expands s.node_count d (start_level sc) (met s forward kinds us) l) where
      old_kept : (v e : ℕ) → get sc v ≡ some e → get l.sc v ≡ some e
      old_kept v e g = ground (arith, x.distance v)

      -- A node with a new distance was met, over an edge from the frontier.
      new_met :
          (v e : ℕ)
          → get sc v ≡ none
          → get l.sc v ≡ some e
          → (e ≡ suc d) × (mem v l.next ≡ true) × Walk (suc d) v
      new_met v e h g =
          let m : mem v (met s forward kinds us) ≡ true = ground (arith, x.distance v) in
          let (u, a, st) = met-mem v us m in
          (
            ground (arith, x.distance v, fits d p),
            ground (arith, x.frontier v),
            hop (i.sound u d (i.queued u a)).2 st,
          )

      sound_next :
          (v e : ℕ)
          → get l.sc v ≡ some e
          → (e ≤ suc d) × (e ≤ deepest_after d deepest l.next) × Walk e v
      sound_next v e g = elim (Option-cases (get sc v)) [
        | inr (y, h) ↦
            let same : get sc v ≡ some e = ground (arith, x.distance v) in
            let (a, b, w) = i.sound v e same in
            (omega arith, omega (arith, deepest_after-ge d deepest l.next i.shallow), w)
        | inl h ↦
            let (same, m, w) = new_met v e h g in
            (
              omega arith,
              omega (arith, deepest_after-new d deepest v l.next m),
              subst (λ k. Walk k v) (sym same) w,
            )
      ]

      -- A node one hop behind a node with distance at most d has a distance by now.
      reached :
          (m u v : ℕ)
          → (e : ℕ) × (e ≤ d) × (get sc u ≡ some e)
          → Hop s forward kinds u v
          → m ≡ suc d
          → (e : ℕ) × (e ≤ m) × (get l.sc v ≡ some e)
      reached m u v (e, a, g) st h = elim (dec_le (suc e) d) [
        | yes q ↦
            let (e', a', g') = i.complete (suc e) v (hop (i.sound u e g).2 st) q in
            (e', omega arith, old_kept v e' g')
        | no q ↦
            let at : get sc u ≡ some d = ground arith in
            let m' = mem-met u v us (i.waiting u at) st in
            elim (Option-cases (get sc v)) [
              | inr (y, k) ↦ (y, omega (arith, (i.sound v y k).0), old_kept v y k)
              | inl k ↦ (suc d, omega arith, ground (arith, x.distance v, fits d p))
            ]
      ]

      complete_next : (m v : ℕ) → Walk m v → m ≤ suc d → (e : ℕ) × (e ≤ m) × (get l.sc v ≡ some e)
      complete_next zero v w h =
          let (e, a, g) = i.complete zero v w (omega arith) in (e, a, old_kept v e g)
      complete_next (suc m) v (hop {u = u} w st) h = elim (dec_le (suc m) d) [
        | yes q ↦ let (e, a, g) = i.complete (suc m) v (hop w st) q in (e, a, old_kept v e g)
        | no q ↦
            let (e, a, g) = i.complete m u w (omega arith) in
            reached (suc m) u v (e, omega arith, g) st (omega arith)
      ]

      newest : (n : ℕ) → mem n l.next ≡ true → get l.sc n ≡ some (deepest_after d deepest l.next)
      newest n m =
          ground
            (arith, x.frontier n, x.distance n, fits d p, deepest_after-new d deepest n l.next m)

      pub Inv-next : Inv (suc d) (deepest_after d deepest l.next) l.next l.sc
      Inv-next = record {
        scratch = x.scratch;
        sound = sound_next;
        complete = complete_next;
        queued = λ v m. ground (arith, x.frontier v, x.distance v, fits d p);
        waiting = λ v g. elim (Option-cases (get sc v)) [
          | inr (y, h) ↦ absurd (ground (arith, old_kept v y h, i.sound v y h))
          | inl h ↦ (new_met v (suc d) h g).1
        ];
        shallow = deepest_after-le d deepest l.next i.shallow;
        attained = elim (List-cases l.next) [
          | inl none_new ↦ let (v, g) = i.attained in (v, rw none_new (old_kept v deepest g))
          | inr (n, ns, e) ↦ (n, newest n (rw e (ground arith)))
        ];
      }

    -- With an empty frontier no further round changes anything.
    pub Inv-settled :
        (k d deepest : ℕ) (sc : Scratch)
        → d + k ≤ 127
        → Inv d deepest [] sc
        → Inv (d + k) deepest [] sc
    unfolding expand
    Inv-settled zero d deepest sc h i = subst (λ n. Inv n deepest [] sc) (omega arith) i
    Inv-settled (suc k) d deepest sc h i =
        subst (λ n. Inv n deepest [] sc) (omega arith)
          (Inv-settled k (suc d) deepest sc (omega arith) (
            Inv-next d deepest [] sc (start_level sc) (omega arith) i
              (expand-Expands s forward kinds d (start_level sc) [] ranged i.scratch)))

    Inv-Distances :
        (d deepest : ℕ) (us : List ℕ) (sc : Scratch)
        → Inv d deepest us sc
        → Distances s forward kinds seed d (sc, deepest)
    Inv-Distances d deepest us sc i = record {
      sound = i.sound;
      complete = i.complete;
      attained = i.attained;
    }

    rounds-Distances :
        (rounds d deepest : ℕ) (us : List ℕ) (sc : Scratch)
        → d + rounds ≤ 127
        → Inv d deepest us sc
        → Distances s forward kinds seed
            (d + rounds)
            (rounds_from s forward kinds rounds d us deepest sc)
    unfolding rounds_from
    rounds-Distances zero d deepest us sc h i =
        subst (λ n. Distances s forward kinds seed n (sc, deepest)) (omega arith)
          (Inv-Distances d deepest us sc i)
    rounds-Distances (suc rounds) d deepest [] sc h i =
        Inv-Distances (d + suc rounds) deepest [] sc (Inv-settled (suc rounds) d deepest sc h i)
    rounds-Distances (suc rounds) d deepest (u ∷ us) sc h i =
        let l = expand s forward kinds d (start_level sc) (u ∷ us) in
        let i' =
          Inv-next d deepest (u ∷ us) sc l (omega arith) i
            (expand-Expands s forward kinds d (start_level sc) (u ∷ us) ranged i.scratch) in
        let deepest' = deepest_after d deepest l.next in
        subst
          (λ n.
            Distances s forward kinds seed n
              (rounds_from s forward kinds rounds (d + 1) l.next deepest' l.sc))
          (omega arith)
          (rounds-Distances rounds (d + 1) deepest' l.next l.sc (omega arith)
            (subst (λ n. Inv n deepest' l.next l.sc) (omega arith) i'))

    pub get-start :
        (sc : Scratch) (v : ℕ)
        → seed < s.node_count
        → IsScratch s.node_count sc
        → get (put (reset sc) seed 0) v ≡ (if v == seed then some 0 else none)
    get-start sc v p h = ground (
      arith,
      get-put s.node_count (reset sc) seed 0 v p (reset-IsScratch s.node_count sc h),
      get-reset s.node_count sc v h,
    )

    complete_start :
        (sc : Scratch)
        → seed < s.node_count
        → IsScratch s.node_count sc
        → (m v : ℕ) → Walk m v
        → m ≤ 0
        → (e : ℕ) × (e ≤ m) × (get (put (reset sc) seed 0) v ≡ some e)
    complete_start sc p h zero v here k = (0, omega arith, ground (arith, get-start sc v p h))
    complete_start sc p h (suc m) v w k = absurd (omega arith)

    pub Inv-start :
        (sc : Scratch)
        → seed < s.node_count
        → IsScratch s.node_count sc
        → Inv 0 0 (seed ∷ []) (put (reset sc) seed 0)
    Inv-start sc p h = record {
      scratch = put-IsScratch s.node_count (reset sc) seed 0 p (reset-IsScratch s.node_count sc h);
      sound = λ v e g.
          let at = get-start sc v p h in
          let none_far : e ≡ 0 = ground arith in
          let only_seed : v ≡ seed = ground arith in
          (
            omega arith,
            omega arith,
            subst (λ k. Walk k v) (sym none_far) (subst (λ w. Walk 0 w) (sym only_seed) here),
          );
      complete = complete_start sc p h;
      queued = λ v m. ground (arith, get-start sc v p h);
      waiting = λ v g. ground (arith, get-start sc v p h);
      shallow = omega arith;
      attained = (seed, ground (arith, get-start sc seed p h));
    }

-- From a node of a view whose neighbours are all nodes of it, with a bound of at most 127 hops and
-- a scratch buffer in any state, the search leaves at each node its least number of hops from the
-- seed over allowed edges, where that is within the bound, and no distance at the others; and it
-- returns the largest distance that it leaves.
pub bfs_from-Distances :
    (s : View) (seed : ℕ) (forward : Bool) (kinds : Option KindMask) (max_depth : ℕ) (sc : Scratch)
    → InRange s
    → seed < s.node_count
    → max_depth ≤ 127
    → IsScratch s.node_count sc
    → Distances s forward kinds seed max_depth (bfs_from s seed forward kinds max_depth sc)
unfolding bfs_from
bfs_from-Distances s seed forward kinds max_depth sc r p k h =
    subst (λ n. Distances s forward kinds seed n (bfs_from s seed forward kinds max_depth sc))
      (omega arith)
      (rounds-Distances s forward kinds seed r max_depth 0 0 (seed ∷ []) (put (reset sc) seed 0)
        (omega arith) (Inv-start s forward kinds seed r sc p h))
