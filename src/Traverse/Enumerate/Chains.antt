-- ===== src/Traverse/Enumerate/Chains.antt =====
-- Chains of allowed edges, and the distances to their end that a search leaves.
use blood_trail.Prelude.{
  ℕ, zero, suc, ◌≤◌, ◌≡◌, refl, sym, ap, ◌∙◌, ◌⊎◌, inl, inr, Bool, true, not, List, [], ◌∷◌, Option,
  some, length, ◌==◌, ℤ, mem, Among, at_head, in_tail, Among-head, Bool-cases, ==_iff, Option-cases,
  arith,
}
use mathlib.Core.Path.{subst}
use mathlib.Core.Bool.{not-not}
use blood_trail.Snapshot.Bitset.Mask.{KindMask}
use blood_trail.Traverse.Scratch.{Scratch, get}
use blood_trail.Traverse.Adjacency.{View, Edge, neighbours, allowed, targets, Mirrored}
use blood_trail.Traverse.Bfs.Distances.{Distances, Hops, here, hop}
use blood_trail.Traverse.Enumerate.{closer}

-- The hops lead from u to t, over allowed edges.
abbrev pub Chain : View → Bool → Option KindMask → ℕ → List Edge → ℕ → Type 0
Chain s forward kinds u [] t = u ≡ t
Chain s forward kinds u (e ∷ es) t =
    Among e (neighbours s forward u) × (allowed kinds e.1 ≡ true) × Chain s forward kinds e.0 es t

-- What the buffer says of the chains to t, as far as they have at most `bound` hops.
pub record Labels (s : View) (forward : Bool) (kinds : Option KindMask) (t bound : ℕ) (sc : Scratch)
    : Type 0 where
  pub reached :
      (v d : ℕ)
      → get sc v ≡ some d
      → (d ≤ bound) × ((es : List Edge) × Chain s forward kinds v es t × (length es ≡ d))
  pub complete :
      (v : ℕ) (es : List Edge)
      → Chain s forward kinds v es t
      → length es ≤ bound
      → (d : ℕ) × (d ≤ length es) × (get sc v ≡ some d)

-- An allowed edge to v among the edges, where v is a target.
pub targets-Among :
    (kinds : Option KindMask) (v : ℕ) (es : List Edge)
    → mem v (targets kinds es) ≡ true
    → (k : ℤ) × Among (v, k) es × (allowed kinds k ≡ true)
unfolding targets
targets-Among kinds v [] h = cc
targets-Among kinds v ((w, k) ∷ es) h = elim (Bool-cases (allowed kinds k)) [
  | inl a ↦
      let h' = rw (a) at h in
      elim (Bool-cases (v == w)) [
        | inl e ↦ (k, at_head (ap (λ x. (x, k)) ((==_iff v w).0 e)), a)
        | inr e ↦
            let (j, m, b) = targets-Among kinds v es (ground (arith, h', e)) in (j, in_tail m, b)
      ]
  | inr a ↦ let (j, m, b) = targets-Among kinds v es (rw (a) at h) in (j, in_tail m, b)
]

pub Among-targets :
    (kinds : Option KindMask) (v : ℕ) (k : ℤ) (es : List Edge)
    → Among (v, k) es
    → allowed kinds k ≡ true
    → mem v (targets kinds es) ≡ true
unfolding targets
Among-targets kinds v k [] m a = elim m [ ]
Among-targets kinds v k ((w, j) ∷ es) (at_head e) a =
    subst (λ x. mem v (targets kinds (x ∷ es)) ≡ true) e (rw (a) (ground arith))
Among-targets kinds v k ((w, j) ∷ es) (in_tail m) a =
    let ih = Among-targets kinds v k es m a in ground arith

closer_step :
    (kinds : Option KindMask) (sc : Scratch) (d v : ℕ) (j : ℤ) (es : List Edge) (x : Edge)
    → (Among x (closer kinds sc d ((v, j) ∷ es))
        → ((x ≡ (v, j)) × (allowed kinds j ≡ true) × (get sc v ≡ some d))
          ⊎ Among x (closer kinds sc d es))
      × (Among x (closer kinds sc d es) → Among x (closer kinds sc d ((v, j) ∷ es)))
unfolding closer
closer_step kinds sc d v j es x =
    let rest = closer kinds sc d es in
    elim (Bool-cases (allowed kinds j)) [
      | inl a ↦ elim (Option-cases (get sc v)) [
        | inl g ↦ (λ m. inr (rw (a, g) at m), λ m. rw (a, g) m)
        | inr (dw, g) ↦ elim (Bool-cases (dw == d)) [
          | inl q ↦ (
            λ m. elim (Among-head x (v, j) rest (rw (a, g, q) at m)) [
              | inl e ↦ inl (e, a, g ∙ ap some ((==_iff dw d).0 q))
              | inr t ↦ inr t
            ],
            λ m. rw (a, g, q) (in_tail m),
          )
          | inr q ↦ (λ m. inr (rw (a, g, q) at m), λ m. rw (a, g, q) m)
        ]
      ]
      | inr a ↦ (λ m. inr (rw (a) at m), λ m. rw (a) m)
    ]

pub closer-Among :
    (kinds : Option KindMask) (sc : Scratch) (d w : ℕ) (k : ℤ) (es : List Edge)
    → Among (w, k) (closer kinds sc d es)
    → Among (w, k) es × (allowed kinds k ≡ true) × (get sc w ≡ some d)
unfolding closer
closer-Among kinds sc d w k [] m = elim m [ ]
closer-Among kinds sc d w k ((v, j) ∷ es) m = elim ((closer_step kinds sc d v j es (w, k)).0 m) [
  | inl (e, a, g) ↦ (
    at_head e,
    subst (λ x. allowed kinds x.1 ≡ true) (sym e) a,
    subst (λ x. get sc x.0 ≡ some d) (sym e) g,
  )
  | inr t ↦ let (n, a, g) = closer-Among kinds sc d w k es t in (in_tail n, a, g)
]

pub Among-closer :
    (kinds : Option KindMask) (sc : Scratch) (d w : ℕ) (k : ℤ) (es : List Edge)
    → Among (w, k) es
    → allowed kinds k ≡ true
    → get sc w ≡ some d
    → Among (w, k) (closer kinds sc d es)
unfolding closer
Among-closer kinds sc d w k [] m a g = elim m [ ]
Among-closer kinds sc d w k ((v, j) ∷ es) (at_head e) a g =
    let same : (d == d) ≡ true = (==_iff d d).1 refl in
    subst (λ x. Among (w, k) (closer kinds sc d (x ∷ es))) e (rw (a, g, same) (at_head refl))
Among-closer kinds sc d w k ((v, j) ∷ es) (in_tail m) a g =
    (closer_step kinds sc d v j es (w, k)).1 (Among-closer kinds sc d w k es m a g)

-- A walk against the edges is a chain.
pub Hops-Chain :
    (s : View) (forward : Bool) (kinds : Option KindMask) (t d v : ℕ)
    → Mirrored s
    → Hops s (not forward) kinds t d v
    → (es : List Edge) × Chain s forward kinds v es t × (length es ≡ d)
Hops-Chain s forward kinds t zero v mi here = ([], refl, refl)
Hops-Chain s forward kinds t (suc d) v mi (hop {u = u} h p) =
    let (es, c, l) = Hops-Chain s forward kinds t d u mi h in
    let (k, m, a) = targets-Among kinds v (neighbours s (not forward) u) p in
    (
      (u, k) ∷ es,
      (
        subst (λ b. Among (u, k) (neighbours s b v)) (not-not forward) (mi (not forward) u v k m),
        a,
        c,
      ),
      ap suc l,
    )

pub Chain-Hops :
    (s : View) (forward : Bool) (kinds : Option KindMask) (t v : ℕ) (es : List Edge)
    → Mirrored s
    → Chain s forward kinds v es t
    → Hops s (not forward) kinds t (length es) v
Chain-Hops s forward kinds t v [] mi c = subst (λ x. Hops s (not forward) kinds t 0 x) (sym c) here
Chain-Hops s forward kinds t v ((w, k) ∷ es) mi (m, a, c) =
    hop (Chain-Hops s forward kinds t w es mi c)
      (Among-targets kinds v k (neighbours s (not forward) w) (mi forward v w k m) a)

-- A search against the edges leaves the labels.
pub Distances-Labels :
    (s : View) (forward : Bool) (kinds : Option KindMask) (t bound : ℕ) (r : Scratch × ℕ)
    → Mirrored s
    → Distances s (not forward) kinds t bound r
    → Labels s forward kinds t bound r.0
Distances-Labels s forward kinds t bound r mi h = record {
  reached = λ v d g. let (b, _, p) = h.sound v d g in (b, Hops-Chain s forward kinds t d v mi p);
  complete = λ v es c b. h.complete (length es) v (Chain-Hops s forward kinds t v es mi c) b;
}
