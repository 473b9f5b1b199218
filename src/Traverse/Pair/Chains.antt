-- ===== src/Traverse/Pair/Chains.antt =====
-- Chains of edges that are walked, joined and cut.
use blood_trail.Prelude.{
  ℕ, zero, suc, ◌+◌, ◌≤◌, ◌≡◌, refl, ap, true, List, [], ◌∷◌, Option, arith, length,
}
use mathlib.Core.Path.{subst}
use blood_trail.Snapshot.Bitset.Mask.{KindMask}
use blood_trail.Traverse.Adjacency.{View, Edge, neighbours}
use blood_trail.Traverse.Bfs.Distances.{Hops, here, hop}
use blood_trail.Traverse.Enumerate.Chains.{Chain, Among-targets, targets-Among}

-- A chain is a walk along the edges.
pub Hops-forward :
    (s : View) (kinds : Option KindMask) (r d u : ℕ) (es : List Edge) (v : ℕ)
    → Hops s true kinds r d u
    → Chain s true kinds u es v
    → Hops s true kinds r (d + length es) v
Hops-forward s kinds r d u [] v h c =
    let e : d ≡ d + 0 = omega arith in
    subst (λ n. Hops s true kinds r n v) e (subst (λ w. Hops s true kinds r d w) c h)
Hops-forward s kinds r d u ((w, k) ∷ es) v h (m, a, c) =
    let e : suc d + length es ≡ d + suc (length es) = omega arith in
    subst (λ n. Hops s true kinds r n v) e
      (Hops-forward s kinds r (suc d) w es v
        (hop h (Among-targets kinds w k (neighbours s true u) m a)) c)

-- A walk, and a chain after it.
pub Hops-joined :
    (s : View) (kinds : Option KindMask) (r d v : ℕ) (es : List Edge) (t : ℕ)
    → Hops s true kinds r d v
    → Chain s true kinds v es t
    → (fs : List Edge) × Chain s true kinds r fs t × (length fs ≡ d + length es)
Hops-joined s kinds r zero v es t here c = (es, c, omega arith)
Hops-joined s kinds r (suc d) v es t (hop {u = u} h p) c =
    let (k, m, a) = targets-Among kinds v (neighbours s true u) p in
    let (fs, c', l) = Hops-joined s kinds r d u ((v, k) ∷ es) t h (m, a, c) in
    (fs, c', omega (arith, l))

-- A chain, cut after i hops.
pub Chain-cut :
    (s : View) (kinds : Option KindMask) (u : ℕ) (es : List Edge) (t i : ℕ)
    → Chain s true kinds u es t
    → i ≤ length es
    → (v : ℕ) × (as_ : List Edge) × (bs : List Edge) × Chain s true kinds u as_ v
      × Chain s true kinds v bs t
      × (length as_ ≡ i)
      × (length as_ + length bs ≡ length es)
Chain-cut s kinds u es t zero c b = (u, [], es, refl, c, refl, omega arith)
Chain-cut s kinds u [] t (suc i) c b = absurd (omega (arith, b))
Chain-cut s kinds u (e ∷ es) t (suc i) (m, a, c) b =
    let (v, as_, bs, p, q, l, k) = Chain-cut s kinds e.0 es t i c (omega (arith, b)) in
    (v, e ∷ as_, bs, (m, a, p), q, ap suc l, omega (arith, k))
