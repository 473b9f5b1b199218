-- ===== src/Traverse/Bfs/Expansion.antt =====
-- One round of the breadth-first search: which distances it writes, and what the next frontier is.
use blood_trail.Prelude.{
  ℕ, ◌+◌, ◌<◌, ◌≡◌, sym, Bool, true, false, ◌&&◌, ◌||◌, List, [], ◌∷◌, ◌++◌, Option, none, some,
  arith, mem, mem-append, All, ℤ, Option-cases, Bool-cases, inl, inr,
}
use mathlib.Core.Path.{subst}
use blood_trail.Snapshot.Bitset.Mask.{KindMask}
use blood_trail.Traverse.Scratch.{get, int8}
use blood_trail.Traverse.Scratch.Laws.{IsScratch, put-IsScratch, get-put}
use blood_trail.Traverse.Adjacency.{View, Edge, neighbours, allowed, targets, InRange}
use blood_trail.Traverse.Bfs.{Level, visit, visit_all, expand}

abbrev pub is_unset : Option ℕ → Bool
is_unset none = true
is_unset (some d) = false

-- The distance of a node after a round in which it was met or not.
abbrev pub pick : Option ℕ → Bool → ℕ → Option ℕ
pick (some x) met d = some x
pick none true d = some (int8 (d + 1))
pick none false d = none

-- The nodes that a round meets, in order.
abbrev pub met : View → Bool → Option KindMask → List ℕ → List ℕ
met s forward kinds [] = []
met s forward kinds (u ∷ us) = targets kinds (neighbours s forward u) ++ met s forward kinds us

pub record Expands (n d : ℕ) (l : Level) (ws : List ℕ) (l' : Level) : Type 0 where
  pub scratch : IsScratch n l'.sc
  pub distance : (v : ℕ) → get l'.sc v ≡ pick (get l.sc v) (mem v ws) d
  pub frontier : (v : ℕ) → mem v l'.next ≡ (mem v l.next || (mem v ws && is_unset (get l.sc v)))

Expands-refl : (n d : ℕ) (l : Level) → IsScratch n l.sc → Expands n d l [] l
Expands-refl n d l h = record {
  scratch = h;
  distance = λ v. ground arith;
  frontier = λ v. ground arith;
}

Expands-trans :
    (n d : ℕ) (l l₁ l₂ : Level) (ws ws' : List ℕ)
    → Expands n d l ws l₁
    → Expands n d l₁ ws' l₂
    → Expands n d l (ws ++ ws') l₂
Expands-trans n d l l₁ l₂ ws ws' e f = record {
  scratch = f.scratch;
  distance = λ v. ground (arith, e.distance v, f.distance v, mem-append v ws ws');
  frontier = λ v. ground (arith, e.distance v, e.frontier v, f.frontier v, mem-append v ws ws');
}

visit-Expands :
    (n d : ℕ) (kinds : Option KindMask) (l : Level) (w : ℕ) (k : ℤ)
    → w < n
    → IsScratch n l.sc
    → Expands n d l (targets kinds ((w, k) ∷ [])) (visit kinds d l (w, k))
unfolding visit targets
visit-Expands n d kinds l w k p h = elim (Bool-cases (allowed kinds k)) [
  | inr e ↦ rw (e, visit, targets) (Expands-refl n d l h)
  | inl e ↦ elim (Option-cases (get l.sc w)) [
    | inr (x, g) ↦
        rw (e, g, visit, targets)
          (record { scratch = h; distance = λ v. ground arith; frontier = λ v. ground arith })
    | inl g ↦
        rw (e, g, visit, targets)
          (record {
            scratch = put-IsScratch n l.sc w (int8 (d + 1)) p h;
            distance = λ v. ground (arith, get-put n l.sc w (int8 (d + 1)) v p h);
            frontier = λ v. ground (arith, mem-append v l.next (w ∷ []));
          })
  ]
]

targets-cons :
    (kinds : Option KindMask) (e : Edge) (es : List Edge)
    → targets kinds (e ∷ es) ≡ targets kinds (e ∷ []) ++ targets kinds es
unfolding targets
targets-cons kinds (w, k) es = ground arith

visit_all-Expands :
    (n d : ℕ) (kinds : Option KindMask) (l : Level) (es : List Edge)
    → All (λ (e : Edge). e.0 < n) es
    → IsScratch n l.sc
    → Expands n d l (targets kinds es) (visit_all kinds d l es)
unfolding visit_all targets
visit_all-Expands n d kinds l [] p h = Expands-refl n d l h
visit_all-Expands n d kinds l (e ∷ es) p h =
    let one = visit-Expands n d kinds l e.0 e.1 p.0 h in
    subst (λ ws. Expands n d l ws (visit_all kinds d (visit kinds d l e) es))
      (sym (targets-cons kinds e es))
      (Expands-trans n d l _ _ _ _ one
        (visit_all-Expands n d kinds (visit kinds d l e) es p.1 one.scratch))

pub expand-Expands :
    (s : View) (forward : Bool) (kinds : Option KindMask) (d : ℕ) (l : Level) (us : List ℕ)
    → InRange s
    → IsScratch s.node_count l.sc
    → Expands s.node_count d l (met s forward kinds us) (expand s forward kinds d l us)
unfolding expand
expand-Expands s forward kinds d l [] r h = Expands-refl s.node_count d l h
expand-Expands s forward kinds d l (u ∷ us) r h =
    let one = visit_all-Expands s.node_count d kinds l (neighbours s forward u) (r forward u) h in
    Expands-trans s.node_count d l _ _ _ _ one (
      expand-Expands s forward kinds d (visit_all kinds d l (neighbours s forward u)) us r
        one.scratch)
