-- ===== src/Traverse/Pair/Meets.antt =====
-- What the two sides of the search know, level by level, and what that says when it stops.
use blood_trail.Prelude.{
  ℕ, zero, suc, ◌+◌, ◌≤◌, ◌<◌, ◌≡◌, refl, inl, inr, Bool, true, false, List, [], Option, some, leb,
  if_cases, arith, length, le→leb, ◌-◌,
}
use mathlib.Core.Path.{subst}
use native.Mathlib.Decide.{dec_le}
use blood_trail.Snapshot.Bitset.Mask.{KindMask}
use blood_trail.Traverse.Adjacency.{View, Edge, InRange, Mirrored}
use blood_trail.Traverse.Bfs.Distances.{Hops, here, Inv, Inv-settled}
use blood_trail.Traverse.Enumerate.Chains.{Chain, Chain-Hops, Hops-Chain}
use blood_trail.Traverse.Pair.{Meet, meet_level, meet_limit, met_enough, meet_rounds, none_left}
use blood_trail.Traverse.Pair.Level.{Least}
use blood_trail.Traverse.Pair.Stops.{
  Least-sym, meet_limit-le, meet_limit-above, enough-cases, side_level,
}
use blood_trail.Traverse.Pair.Chains.{Hops-forward, Hops-joined, Chain-cut}

module _ (s : View) (kinds : Option KindMask) (ranged : InRange s) (r t : ℕ) where
  -- Both sides are plain searches so far, and D is the least sum.
  pub record Meets (m : Meet) : Type 0 where
    pub deep_f : ℕ
    pub deep_b : ℕ
    pub front : Inv s true kinds r ranged m.levels_f deep_f m.front_f m.sc_f
    pub back : Inv s false kinds t ranged m.levels_b deep_b m.front_b m.sc_b
    pub least : Least m.sc_f m.sc_b m.best

  meet_level-Meets :
      (m : Meet)
      → m.levels_f + m.levels_b < 127
      → Meets m
      → Meets (meet_level s kinds m)
        × ((meet_level s kinds m).levels_f + (meet_level s kinds m).levels_b
            ≡ suc (m.levels_f + m.levels_b))
  unfolding meet_level
  meet_level-Meets m p h =
      if_cases (λ (x : Meet). Meets x × (x.levels_f + x.levels_b ≡ suc (m.levels_f + m.levels_b)))
        (leb (length m.front_f) (length m.front_b))
        (λ _.
          let (d, i, l) =
            side_level s kinds ranged true r m.levels_f h.deep_f m.front_f m.sc_f m.sc_b m.best
              (omega (arith, p)) h.front h.least in
          (
            record { deep_f = d; deep_b = h.deep_b; front = i; back = h.back; least = l },
            omega arith,
          ))
        (λ _.
          let (d, i, l) =
            side_level s kinds ranged false t m.levels_b h.deep_b m.front_b m.sc_b m.sc_f m.best
              (omega (arith, p)) h.back (Least-sym m.sc_f m.sc_b m.best h.least) in
          (
            record {
              deep_f = h.deep_f;
              deep_b = d;
              front = h.front;
              back = i;
              least = Least-sym _ m.sc_f _ l;
            },
            omega arith,
          ))

  -- The rounds end where the loop stops, with no more levels than the bound.
  pub meet_rounds-Meets :
      (max_depth rounds : ℕ) (m : Meet)
      → max_depth ≤ 127
      → m.levels_f + m.levels_b + rounds ≡ max_depth
      → Meets m
      → Meets (meet_rounds s kinds max_depth rounds m)
        × (met_enough max_depth (meet_rounds s kinds max_depth rounds m) ≡ true)
        × ((meet_rounds s kinds max_depth rounds m).levels_f
              + (meet_rounds s kinds max_depth rounds m).levels_b
            ≤ max_depth)
  unfolding meet_rounds met_enough
  meet_rounds-Meets max_depth zero m b e h = (
    h,
    if_cases (λ (x : Bool). x ≡ true) (none_left m.front_f) (λ _. refl)
        (λ _.
          if_cases (λ (x : Bool). x ≡ true) (none_left m.front_b) (λ _. refl)
            (λ _.
              le→leb (meet_limit max_depth m.best) (m.levels_f + m.levels_b)
                (omega (arith, e, meet_limit-le max_depth m.best)))),
    omega (arith, e),
  )
  meet_rounds-Meets max_depth (suc rounds) m b e h =
      if_cases
        (λ (x : Meet).
          Meets x × (met_enough max_depth x ≡ true) × (x.levels_f + x.levels_b ≤ max_depth))
        (met_enough max_depth m) (λ q. (h, q, omega (arith, e)))
        (λ q.
          let (h', l) = meet_level-Meets m (omega (arith, e, b)) h in
          meet_rounds-Meets max_depth rounds (meet_level s kinds m) b (omega (arith, e, l)) h')

  module _ (mirrored : Mirrored s) (max_depth : ℕ) (small : max_depth ≤ 127) (m : Meet)
      (h : Meets m) (few : m.levels_f + m.levels_b ≤ max_depth) where
    along_edges :
        (es : List Edge) (v : ℕ) → Chain s true kinds r es v → Hops s true kinds r (length es) v
    along_edges es v c =
        let e : 0 + length es ≡ length es = omega arith in
        subst (λ n. Hops s true kinds r n v) e (Hops-forward s kinds r 0 r es v here c)

    -- A frontier that is empty leaves nothing to find.
    no_front :
        (es : List Edge)
        → m.front_f ≡ []
        → Chain s true kinds r es t
        → length es ≤ max_depth
        → (d : ℕ) × (m.best ≡ some d) × (d ≤ length es)
    no_front es e c b =
        let k = 127 - m.levels_f in
        let i =
          Inv-settled s true kinds r ranged k m.levels_f h.deep_f m.sc_f (omega (arith, few, small))
            (subst (λ us. Inv s true kinds r ranged m.levels_f h.deep_f us m.sc_f) e h.front) in
        let (x, p, f) =
          i.complete (length es) t (along_edges es t c) (omega (arith, b, small, few)) in
        let (y, q, g) = h.back.complete 0 t here (omega arith) in
        let (d, a, l) = h.least.below t x y f g in (d, a, omega (arith, p, q, l))

    no_back :
        (es : List Edge)
        → m.front_b ≡ []
        → Chain s true kinds r es t
        → length es ≤ max_depth
        → (d : ℕ) × (m.best ≡ some d) × (d ≤ length es)
    no_back es e c b =
        let k = 127 - m.levels_b in
        let i =
          Inv-settled s false kinds t ranged k m.levels_b h.deep_b m.sc_b
            (omega (arith, few, small))
            (subst (λ us. Inv s false kinds t ranged m.levels_b h.deep_b us m.sc_b) e h.back) in
        let (y, q, g) =
          i.complete (length es) r (Chain-Hops s true kinds t r es mirrored c)
            (omega (arith, b, small, few)) in
        let (x, p, f) = h.front.complete 0 r here (omega arith) in
        let (d, a, l) = h.least.below r x y f g in (d, a, omega (arith, p, q, l))

    -- A chain that the levels cover has a node that both sides saw.
    covered :
        (es : List Edge)
        → Chain s true kinds r es t
        → length es ≤ m.levels_f + m.levels_b
        → (i : ℕ) × (i ≤ length es) × (i ≤ m.levels_f) × (length es ≤ i + m.levels_b)
        → (d : ℕ) × (m.best ≡ some d) × (d ≤ length es)
    covered es c b (i, u, v, w) =
        let (n, as_, bs, p, q, l, k) = Chain-cut s kinds r es t i c u in
        let (x, xl, f) =
          h.front.complete (length as_) n (along_edges as_ n p) (omega (arith, l, v)) in
        let (y, yl, g) =
          h.back.complete (length bs) n (Chain-Hops s true kinds t n bs mirrored q)
            (omega (arith, l, k, w)) in
        let (d, a, z) = h.least.below n x y f g in (d, a, omega (arith, xl, yl, z, k))

    cut_at :
        (len : ℕ)
        → len ≤ m.levels_f + m.levels_b
        → (i : ℕ) × (i ≤ len) × (i ≤ m.levels_f) × (len ≤ i + m.levels_b)
    cut_at len b = elim (dec_le len m.levels_f) [
      | yes p ↦ (len, omega arith, p, omega arith)
      | no p ↦ (m.levels_f, omega (arith, p), omega arith, b)
    ]

    -- A chain within the bound is no shorter than D, which is there.
    pub stopped :
        (es : List Edge)
        → met_enough max_depth m ≡ true
        → Chain s true kinds r es t
        → length es ≤ max_depth
        → (d : ℕ) × (m.best ≡ some d) × (d ≤ length es)
    stopped es stop c b = elim (enough-cases max_depth m stop) [
      | inl e ↦ no_front es e c b
      | inr (inl e) ↦ no_back es e c b
      | inr (inr e) ↦ elim (dec_le (length es) (m.levels_f + m.levels_b)) [
        | yes p ↦ covered es c p (cut_at (length es) p)
        | no p ↦
            meet_limit-above max_depth (m.levels_f + m.levels_b) (length es) m.best e
              (omega (arith, p)) b
      ]
    ]

    -- D is the length of a chain, within the bound.
    pub achieved :
        (d : ℕ)
        → m.best ≡ some d
        → (d ≤ max_depth) × ((es : List Edge) × Chain s true kinds r es t × (length es ≡ d))
    achieved d e =
        let (v, x, y, f, g, q) = h.least.attained d e in
        let (xl, _, wf) = h.front.sound v x f in
        let (yl, _, wb) = h.back.sound v y g in
        let (es, c, l) = Hops-Chain s true kinds t y v mirrored wb in
        let (fs, c', l') = Hops-joined s kinds r x v es t wf c in
        (omega (arith, xl, yl, q, few), (fs, c', omega (arith, l, l', q)))
