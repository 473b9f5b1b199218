-- ===== src/Traverse/Machine/Fuel.antt =====
-- Fuel that is enough for a walk of a given height over nodes of bounded degree.
use blood_trail.Prelude.{ℕ, zero, suc, ◌+◌, ◌*◌, ◌≤◌, ◌≡◌, inl, inr, List, [], ◌∷◌, length, arith}
use mathlib.Core.List.{reverse}
use native.Mathlib.Nat.{mul-le-mul_left, mul-le-mul_right, suc-mul}
use blood_trail.Traverse.Sink.Stored.{length-reverse}
use blood_trail.Traverse.Adjacency.{Edge}
use blood_trail.Traverse.Machine.{Turn, onward}
use blood_trail.Traverse.Machine.Walks.{total, steps}
use blood_trail.Traverse.Machine.Frames.{Turn-cases, leaf_walks, steps-onward}

-- The nodes of a tree of that height in which each node has w children.
abbrev pub tree : ℕ → ℕ → ℕ
tree w zero = 1
tree w (suc h) = 1 + w * tree w h

total-le :
    (f : Edge → ℕ) (b : ℕ) (es : List Edge) → ((e : Edge) → f e ≤ b) → total f es ≤ length es * b
total-le f b [] h = omega arith
total-le f b (e ∷ es) h = omega (arith, h e, total-le f b es h, suc-mul (length es) b)

pub tree-le : (w h k : ℕ) → h ≤ k → tree w h ≤ tree w k
tree-le w zero zero b = omega arith
tree-le w zero (suc k) b = omega arith
tree-le w (suc h) zero b = absurd (omega (arith, b))
tree-le w (suc h) (suc k) b = omega (arith, mul-le-mul_left w (tree-le w h k (omega (arith, b))))

pub steps-tree :
    (turn : ℕ → ℕ → Turn) (w : ℕ)
    → ((u len : ℕ) (es : List Edge) → turn u len ≡ onward es → length es ≤ w)
    → (h len u : ℕ) → steps turn h len u ≤ tree w h
unfolding steps
steps-tree turn w d zero len u = omega arith
steps-tree turn w d (suc h) len u =
    let one : 1 ≤ tree w (suc h) = omega arith in
    elim (Turn-cases (turn u len)) [
      | inl e ↦ omega (arith, one, ((leaf_walks turn (suc h) len u).0 e).1)
      | inr (inl e) ↦ omega (arith, one, ((leaf_walks turn (suc h) len u).1 e).1)
      | inr (inr (es, e)) ↦
          let few : length (reverse es) ≤ w = omega (arith, length-reverse es, d u len es e) in
          omega (
            arith,
            steps-onward turn h len u es e,
            total-le (λ e. steps turn h (suc len) e.0) (tree w h) (reverse es)
                (λ e. steps-tree turn w d h (suc len) e.0),
            mul-le-mul_right (tree w h) few,
          )
    ]
