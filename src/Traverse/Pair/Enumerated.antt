-- ===== src/Traverse/Pair/Enumerated.antt =====
-- The enumeration between two distance buffers takes every shortest path and no other.
use blood_trail.Prelude.{
  ℕ, zero, suc, ◌+◌, ◌%◌, ◌≤◌, ◌≡◌, refl, sym, ap, ◌∙◌, inl, inr, true, List, [], ◌∷◌, Option, some,
  length, ◌==◌, ==_iff, map, All, Among, at_head, Among-head, Among-reverse, reverse-Among,
  Among-map, map-Among, arith, Bool-cases,
}
use mathlib.Core.Path.{subst}
use mathlib.Core.List.{reverse}
use blood_trail.Snapshot.Bitset.Mask.{KindMask}
use blood_trail.Traverse.Scratch.{Scratch, get}
use blood_trail.Traverse.Adjacency.{View, Edge, neighbours, allowed}
use blood_trail.Traverse.Bfs.Distances.{Distances, here, hop}
use blood_trail.Traverse.Machine.{Turn, arrive, onward}
use blood_trail.Traverse.Machine.Walks.{each, walks, Shallow}
use blood_trail.Traverse.Machine.Frames.{walks-onward, leaf_walks}
use blood_trail.Traverse.Enumerate.Chains.{Chain, Labels, Among-targets}
use blood_trail.Traverse.Enumerate.Shortest.{each-Among, Among-each, All-Among, edges_of}
use blood_trail.Traverse.Pair.{on_route, on_both, pair_turn}
use blood_trail.Traverse.Pair.Route.{on_both-Among, Among-on_both}
use blood_trail.Traverse.Pair.Chains.{Hops-joined}

-- What the test on two bytes says of distances that fit.
on_route-left :
    (before h y d : ℕ)
    → d ≤ 127
    → before + suc h ≡ d
    → y ≤ d
    → on_route ((before + 1) % 256) y d ≡ true
    → y ≡ h
on_route-left before h y d small sum le e =
    let q = (==_iff ((y + 128) % 256 + ((before + 1) % 256 + 128) % 256) (d + 256)).0 e in
    omega (arith, q, small, sum, le)

on_route-next :
    (before h y d : ℕ)
    → d ≤ 127
    → before + suc h ≡ d
    → y ≡ h
    → on_route ((before + 1) % 256) y d ≡ true
on_route-next before h y d small sum e =
    (==_iff ((y + 128) % 256 + ((before + 1) % 256 + 128) % 256) (d + 256)).1
      (omega (arith, e, small, sum))

module _ (s : View) (kinds : Option KindMask) (r t d n : ℕ) (f b : Scratch) (small : d ≤ 127)
    (df : Distances s true kinds r d (f, n)) (l : Labels s true kinds t d b)
    (shortest : (es : List Edge) → Chain s true kinds r es t → d ≤ length es) where
  abbrev pub turn : ℕ → ℕ → Turn
  turn u len = pair_turn s t d kinds f b u len

  -- The node is on a shortest path, with h hops left.
  pub record On (u h : ℕ) : Type 0 where
    pub before : ℕ
    pub from_root : get f u ≡ some before
    pub to_end : get b u ≡ some h
    pub sum : before + h ≡ d

  abbrev next : ℕ → ℕ → List Edge
  next u before = on_both kinds f b d ((before + 1) % 256) (neighbours s true u)

  end_zero : (h : ℕ) → get b t ≡ some h → h ≡ 0
  end_zero h g = let (e, le, g') = l.complete t [] refl (omega arith) in ground (arith, g, g', le)

  zero_end : (u : ℕ) → get b u ≡ some 0 → u ≡ t
  zero_end u g = let (_, (es, c, q)) = l.reached u 0 g in zero_end_of u es c q
    where
      zero_end_of : (u : ℕ) (es : List Edge) → Chain s true kinds u es t → length es ≡ 0 → u ≡ t
      zero_end_of u [] c q = c
      zero_end_of u (e ∷ es) c q = absurd (omega (arith, q))

  turn-zero : (u len : ℕ) → On u 0 → turn u len ≡ arrive
  unfolding pair_turn
  turn-zero u len o =
      let e : (u == t) ≡ true = (==_iff u t).1 (zero_end u o.to_end) in rw (e, pair_turn) refl

  turn-suc : (u len h : ℕ) (o : On u (suc h)) → turn u len ≡ onward (next u o.before)
  unfolding pair_turn
  turn-suc u len h o = elim (Bool-cases (u == t)) [
    | inl e ↦
        let g =
          end_zero (suc h) (subst (λ v. get b v ≡ some (suc h)) ((==_iff u t).0 e) o.to_end) in
        absurd (omega (arith, g))
    | inr e ↦ rw (e, o.from_root, pair_turn) refl
  ]

  -- An edge that is kept leads to a node with one hop less left.
  next-On :
      (u h : ℕ) (o : On u (suc h)) (e : Edge)
      → Among e (next u o.before)
      → Among e (neighbours s true u) × (allowed kinds e.1 ≡ true) × On e.0 h
  next-On u h o e m =
      let (a, k, g, (y, g', q)) =
        on_both-Among kinds f b d ((o.before + 1) % 256) e.0 e.1 (neighbours s true u) m in
      let near : (o.before + 1) % 256 ≡ suc o.before = omega (arith, o.sum, small) in
      let yl = (l.reached e.0 y g').0 in
      let yh : y ≡ h = on_route-left o.before h y d small o.sum yl q in
      (
        a,
        k,
        record {
          before = suc o.before;
          from_root = g ∙ ap some near;
          to_end = g' ∙ ap some yh;
          sum = omega (arith, o.sum);
        },
      )

  -- A first hop of a shortest way to the end is kept.
  On-next :
      (u h : ℕ) (o : On u (suc h)) (e : Edge) (es : List Edge)
      → Among e (neighbours s true u)
      → allowed kinds e.1 ≡ true
      → Chain s true kinds e.0 es t
      → length es ≡ h
      → Among e (next u o.before) × On e.0 h
  On-next u h o e es a k c q =
      let near : (o.before + 1) % 256 ≡ suc o.before = omega (arith, o.sum, small) in
      let (y, yl, g) = l.complete e.0 es c (omega (arith, q, o.sum)) in
      let (_, (ys, yc, yq)) = l.reached e.0 y g in
      let (_, _, w) = df.sound u o.before o.from_root in
      let (x, xl, g') =
        df.complete (suc o.before) e.0
          (hop w (Among-targets kinds e.0 e.1 (neighbours s true u) a k)) (omega (arith, o.sum)) in
      let (_, _, w') = df.sound e.0 x g' in
      let (ps, pc, pq) = Hops-joined s kinds r x e.0 es t w' c in
      let (zs, zc, zq) = Hops-joined s kinds r o.before u (e ∷ ys) t w (a, k, yc) in
      let p1 = shortest ps pc in
      let p2 = shortest zs zc in
      let xe : x ≡ suc o.before = omega (arith, xl, pq, p1, q, o.sum) in
      let ye : y ≡ h = omega (arith, yl, zq, p2, yq, q, o.sum) in
      let g'' : get f e.0 ≡ some ((o.before + 1) % 256) = g' ∙ ap some (xe ∙ sym near) in
      (
        Among-on_both kinds f b d ((o.before + 1) % 256) e.0 e.1 y (neighbours s true u) a k g'' g
            (on_route-next o.before h y d small o.sum ye),
        record {
          before = suc o.before;
          from_root = g' ∙ ap some xe;
          to_end = g ∙ ap some ye;
          sum = omega (arith, o.sum);
        },
      )

  pub falls : (h u len : ℕ) → On u h → Shallow turn h len u
  unfolding Shallow
  falls zero u len o = λ es e. let q : arrive ≡ onward es = sym (turn-zero u len o) ∙ e in cc
  falls (suc h) u len o = λ es e.
      let q = ap edges_of (sym (turn-suc u len h o) ∙ e) in
      subst (λ es. All (λ (e : Edge). Shallow turn h (suc len) e.0) (reverse es)) q
        (All-Among (λ (e : Edge). Shallow turn h (suc len) e.0) _
          (λ e m.
            let (_, _, o') = next-On u h o e (reverse-Among e _ m) in falls h e.0 (suc len) o'))

  walks-suc :
      (h u len : ℕ) (o : On u (suc h))
      → walks turn (suc h) len u
        ≡ each (λ e. map (λ p. e ∷ p) (walks turn h (suc len) e.0)) (reverse (next u o.before))
  walks-suc h u len o = walks-onward turn h len u _ (turn-suc u len h o)

  walks-zero : (u len : ℕ) → On u 0 → walks turn 0 len u ≡ [] ∷ []
  walks-zero u len o = ((leaf_walks turn 0 len u).1 (turn-zero u len o)).0

  pub walks-Chain :
      (h u len : ℕ) (es : List Edge)
      → On u h
      → Among es (walks turn h len u)
      → Chain s true kinds u es t × (length es ≡ h)
  walks-Chain zero u len es o m = elim (Among-head es [] [] (rw (walks-zero u len o) at m)) [
    | inl e ↦
        subst (λ x. Chain s true kinds u x t × (length x ≡ 0)) (sym e) (zero_end u o.to_end, refl)
    | inr x ↦ elim x [ ]
  ]
  walks-Chain (suc h) u len es o m =
      let (e, a, x) = each-Among _ es _ (rw (walks-suc h u len o) at m) in
      let (p, y, q) = map-Among (λ p. e ∷ p) es (walks turn h (suc len) e.0) x in
      let (n, k, o') = next-On u h o e (reverse-Among e _ a) in
      let (c, z) = walks-Chain h e.0 (suc len) p o' y in
      subst (λ x. Chain s true kinds u x t × (length x ≡ suc h)) (sym q) ((n, k, c), ap suc z)

  pub Chain-walks :
      (h u len : ℕ) (es : List Edge)
      → On u h
      → Chain s true kinds u es t
      → length es ≡ h
      → Among es (walks turn h len u)
  Chain-walks zero u len [] o c q =
      subst (λ w. Among [] w) (sym (walks-zero u len o)) (at_head refl)
  Chain-walks zero u len (e ∷ es) o c q = absurd (omega (arith, q))
  Chain-walks (suc h) u len [] o c q = absurd (omega (arith, q))
  Chain-walks (suc h) u len (e ∷ es) o (n, k, c) q =
      let q' : length es ≡ h = omega (arith, q) in
      let (m, o') = On-next u h o e es n k c q' in
      subst (λ w. Among (e ∷ es) w) (sym (walks-suc h u len o))
        (Among-each (λ e. map (λ p. e ∷ p) (walks turn h (suc len) e.0)) (e ∷ es) e _
          (Among-reverse e _ m)
          (Among-map (λ p. e ∷ p) es (walks turn h (suc len) e.0)
            (Chain-walks h e.0 (suc len) es o' c q')))

  pub root-On : (es : List Edge) → Chain s true kinds r es t → length es ≡ d → On r d
  root-On es c q =
      let (x, xl, g) = df.complete 0 r here (omega arith) in
      let (y, yl, g') = l.complete r es c (omega (arith, q)) in
      let (_, (ys, yc, yq)) = l.reached r y g' in
      let x0 : x ≡ 0 = omega (arith, xl) in
      let yd : y ≡ d = omega (arith, yl, q, yq, shortest ys yc) in
      record { before = 0; from_root = g ∙ ap some x0; to_end = g' ∙ ap some yd; sum = omega arith }
