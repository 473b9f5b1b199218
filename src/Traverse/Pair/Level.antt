-- ===== src/Traverse/Pair/Level.antt =====
-- A level of the search from both ends: it writes what a level of the plain search writes, and it
-- keeps the least sum of two distances.
use blood_trail.Prelude.{
  ℕ, ◌+◌, ◌≤◌, ◌<◌, ◌≡◌, refl, ◌⊎◌, ==_iff, inl, inr, Bool, List, [], ◌∷◌, Option, none, some, ltb,
  ◌==◌, Bool-cases, Option-cases, All, arith, ℤ,
}
use mathlib.Core.Path.{subst}
use blood_trail.Snapshot.Bitset.Mask.{KindMask}
use blood_trail.Traverse.Scratch.{Scratch, get, put, int8}
use blood_trail.Traverse.Scratch.Laws.{IsScratch, put-IsScratch, get-put}
use blood_trail.Traverse.Adjacency.{View, Edge, neighbours, allowed, InRange}
use blood_trail.Traverse.Bfs.{Level, visit, visit_all, expand}
use blood_trail.Traverse.Pair.{
  Side, lower, met_best, meet_new, meet_visit, meet_visit_all, meet_expand,
}

-- The same step of the plain search.
abbrev pub plain : Side → Level
plain x = record { sc = x.sc; next = x.next }

-- D is the least sum of the distances of a node in both buffers.
pub record Least (a b : Scratch) (best : Option ℕ) : Type 0 where
  pub attained :
      (d : ℕ) → best ≡ some d → (v x y : ℕ) × (get a v ≡ some x) × (get b v ≡ some y) × (d ≡ x + y)
  pub below :
      (v x y : ℕ) → get a v ≡ some x → get b v ≡ some y → (d : ℕ) × (best ≡ some d) × (d ≤ x + y)

-- An edge that leads nowhere new, or a new node.
meet_visit-cases :
    (kinds : Option KindMask) (n : ℕ) (other : Scratch) (x : Side) (w : ℕ) (k : ℤ)
    (P : Side → Level → Type 0)
    → P x (plain x)
    → (get x.sc w ≡ none → P (meet_new n other x w) (plain (meet_new n other x w)))
    → P (meet_visit kinds n other x (w, k)) (visit kinds n (plain x) (w, k))
unfolding meet_visit visit meet_new
meet_visit-cases kinds n other x w k P h g = elim (Bool-cases (allowed kinds k)) [
  | inl a ↦ elim (Option-cases (get x.sc w)) [
    | inl e ↦ rw (a, e, meet_visit, visit) (g e)
    | inr (y, e) ↦ rw (a, e, meet_visit, visit) h
  ]
  | inr a ↦ rw (a, meet_visit, visit) h
]

lower-from : (c : ℕ) (best : Option ℕ) (d : ℕ) → lower c best ≡ some d → (d ≡ c) ⊎ (best ≡ some d)
lower-from c none d h = inl (ground (arith, h))
lower-from c (some b) d h = elim (Bool-cases (ltb c b)) [
  | inl e ↦ inl (ground (arith, h, e))
  | inr e ↦ inr (ground (arith, h, e))
]

lower-le :
    (c : ℕ) (best : Option ℕ)
    → (d : ℕ) × (lower c best ≡ some d) × (d ≤ c) × ((b : ℕ) → best ≡ some b → d ≤ b)
lower-le c none = (c, refl, omega arith, λ b e. ground (arith, e))
lower-le c (some b) = elim (Bool-cases (ltb c b)) [
  | inl e ↦ (c, rw (e) refl, omega arith, λ x q. ground (arith, e, q))
  | inr e ↦ (b, rw (e) refl, ground (arith, e), λ x q. ground (arith, q))
]

met_best-Least :
    (m : ℕ) (a b : Scratch) (w nd : ℕ) (best : Option ℕ) (o : Option ℕ)
    → w < m
    → IsScratch m a
    → get a w ≡ none
    → get b w ≡ o
    → Least a b best
    → Least (put a w nd) b (met_best nd o best)
met_best-Least m a b w nd best none p h g e l = record {
  attained = λ d q.
      let (v, x, y, f, t, s) = l.attained d q in
      (v, x, y, ground (arith, get-put m a w nd v p h, f, g), t, s);
  below = λ v x y f t. l.below v x y (ground (arith, get-put m a w nd v p h, f, e, t)) t;
}
met_best-Least m a b w nd best (some o) p h g e l = record {
  attained = λ d q. elim (lower-from (nd + o) best d q) [
    | inl c ↦ (w, nd, o, ground (arith, get-put m a w nd w p h), e, c)
    | inr c ↦
        let (v, x, y, f, t, s) = l.attained d c in
        (v, x, y, ground (arith, get-put m a w nd v p h, f, g), t, s)
  ];
  below = λ v x y f t.
      let (d, q, le, least) = lower-le (nd + o) best in
      elim (Bool-cases (v == w)) [
        | inl c ↦
            let same : v ≡ w = (==_iff v w).0 c in
            let x-nd : x ≡ nd = ground (arith, get-put m a w nd v p h, f, c) in
            let t' : get b w ≡ some y = subst (λ n. get b n ≡ some y) same t in
            let y-o : y ≡ o = ground (arith, t', e) in (d, q, omega (arith, le, x-nd, y-o))
        | inr c ↦
            let f' : get a v ≡ some x = ground (arith, get-put m a w nd v p h, f, c) in
            let (d', q', le') = l.below v x y f' t in (d, q, omega (arith, le', least d' q'))
      ];
}

-- What a level of one side keeps, with the plain search beside it.
record Beside (m : ℕ) (other : Scratch) (x : Side) (l : Level) : Type 0 where
  same : plain x ≡ l
  scratch : IsScratch m x.sc
  least : Least x.sc other x.best

meet_visit-Beside :
    (m n : ℕ) (kinds : Option KindMask) (other : Scratch) (x : Side) (l : Level) (w : ℕ) (k : ℤ)
    → w < m
    → Beside m other x l
    → Beside m other (meet_visit kinds n other x (w, k)) (visit kinds n l (w, k))
unfolding meet_new
meet_visit-Beside m n kinds other x l w k p b =
    subst (λ l'. Beside m other (meet_visit kinds n other x (w, k)) (visit kinds n l' (w, k)))
      b.same
      (meet_visit-cases kinds n other x w k (Beside m other)
        (record { same = refl; scratch = b.scratch; least = b.least })
        (λ g. record {
          same = refl;
          scratch = put-IsScratch m x.sc w (int8 (n + 1)) p b.scratch;
          least =
              met_best-Least m x.sc other w (int8 (n + 1)) x.best (get other w) p b.scratch g refl
                b.least;
        }))

meet_visit_all-Beside :
    (m n : ℕ) (kinds : Option KindMask) (other : Scratch) (x : Side) (l : Level) (es : List Edge)
    → All (λ (e : Edge). e.0 < m) es
    → Beside m other x l
    → Beside m other (meet_visit_all kinds n other x es) (visit_all kinds n l es)
unfolding meet_visit_all visit_all
meet_visit_all-Beside m n kinds other x l [] p b = b
meet_visit_all-Beside m n kinds other x l ((w, k) ∷ es) p b =
    meet_visit_all-Beside m n kinds other (meet_visit kinds n other x (w, k)) _ es p.1
      (meet_visit-Beside m n kinds other x l w k p.0 b)

meet_expand-Beside :
    (s : View) (forward : Bool) (n : ℕ) (kinds : Option KindMask) (other : Scratch) (x : Side)
    (l : Level) (us : List ℕ)
    → InRange s
    → Beside s.node_count other x l
    → Beside s.node_count other
        (meet_expand s forward kinds n other x us)
        (expand s forward kinds n l us)
unfolding meet_expand expand
meet_expand-Beside s forward n kinds other x l [] r b = b
meet_expand-Beside s forward n kinds other x l (u ∷ us) r b =
    meet_expand-Beside s forward n kinds other
      (meet_visit_all kinds n other x (neighbours s forward u))
      (visit_all kinds n l (neighbours s forward u)) us r
      (meet_visit_all-Beside s.node_count n kinds other x l (neighbours s forward u) (r forward u)
        b)

-- A level writes the distances and builds the frontier of the plain search, and D stays the least
-- sum.
pub meet_expand-expand :
    (s : View) (forward : Bool) (n : ℕ) (kinds : Option KindMask) (other sc : Scratch)
    (best : Option ℕ) (us : List ℕ)
    → InRange s
    → IsScratch s.node_count sc
    → Least sc other best
    → (plain (meet_expand s forward kinds n other (record { sc = sc; next = []; best = best }) us)
        ≡ expand s forward kinds n (record { sc = sc; next = [] }) us)
      × Least
          (meet_expand s forward kinds n other (record { sc = sc; next = []; best = best }) us).sc
          other
          (meet_expand s forward kinds n other (record { sc = sc; next = []; best = best }) us).best
meet_expand-expand s forward n kinds other sc best us r h l =
    let b =
      meet_expand-Beside s forward n kinds other (record { sc = sc; next = []; best = best })
        (record { sc = sc; next = [] }) us r (record { same = refl; scratch = h; least = l }) in
    (b.same, b.least)
