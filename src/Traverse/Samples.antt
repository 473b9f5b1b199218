-- ===== src/Traverse/Samples.antt =====
-- A small view for the tests of the searches, internal/engine/traverse.
use blood_trail.Prelude.{
  ℕ, zero, suc, ◌≡◌, refl, true, false, List, [], ◌∷◌, none, some, arith, pos, get_or, Bool, not,
  Among, at_head, in_tail, sym,
}
use blood_trail.Traverse.Adjacency.{
  View, Edge, neighbours, clean_adjacency, walk_adjacency, InRange, Mirrored, Degree,
}
use mathlib.Core.Path.{subst}

-- 0 → 1 → 2 → 0, and 0 → 2 over another kind; node 3 has no edge.
abbrev pub out_of : ℕ → List Edge
out_of u = get_or (((1, pos 5) ∷ (2, pos 6) ∷ []) ∷ ((2, pos 5) ∷ []) ∷ ((0, pos 5) ∷ []) ∷ []) u []

abbrev pub into : ℕ → List Edge
into u = get_or (((2, pos 5) ∷ []) ∷ ((0, pos 5) ∷ []) ∷ ((0, pos 6) ∷ (1, pos 5) ∷ []) ∷ []) u []

abbrev pub ring : View
ring = record {
  node_count = 4;
  out_slices = λ u. some (out_of u);
  in_slices = λ _. none;
  out_edges = out_of;
  in_edges = into;
  base_out = out_of;
  overlay = false;
  alive = λ _. true;
}

pub ring-InRange : InRange ring
unfolding neighbours clean_adjacency walk_adjacency
ring-InRange true zero = omega arith
ring-InRange true (suc zero) = omega arith
ring-InRange true (suc (suc zero)) = omega arith
ring-InRange true (suc (suc (suc u))) = tt
ring-InRange false zero = omega arith
ring-InRange false (suc zero) = omega arith
ring-InRange false (suc (suc zero)) = omega arith
ring-InRange false (suc (suc (suc u))) = tt

-- The edge that was found is the one that stands there.
moved_back :
    (forward : Bool) (u : ℕ) (x y : Edge)
    → x ≡ y
    → Among (u, y.1) (neighbours ring (not forward) y.0)
    → Among (u, x.1) (neighbours ring (not forward) x.0)
moved_back forward u x y e m =
    subst (λ z. Among (u, z.1) (neighbours ring (not forward) z.0)) (sym e) m

pub ring-Mirrored : Mirrored ring
unfolding neighbours clean_adjacency walk_adjacency
ring-Mirrored true zero w k (at_head e) = moved_back true 0 (w, k) (1, pos 5) e (at_head refl)
ring-Mirrored true zero w k (in_tail (at_head e)) =
    moved_back true 0 (w, k) (2, pos 6) e (at_head refl)
ring-Mirrored true (suc zero) w k (at_head e) =
    moved_back true 1 (w, k) (2, pos 5) e (in_tail (at_head refl))
ring-Mirrored true (suc (suc zero)) w k (at_head e) =
    moved_back true 2 (w, k) (0, pos 5) e (at_head refl)
ring-Mirrored true (suc (suc (suc u))) w k m = elim m [ ]
ring-Mirrored false zero w k (at_head e) = moved_back false 0 (w, k) (2, pos 5) e (at_head refl)
ring-Mirrored false (suc zero) w k (at_head e) =
    moved_back false 1 (w, k) (0, pos 5) e (at_head refl)
ring-Mirrored false (suc (suc zero)) w k (at_head e) =
    moved_back false 2 (w, k) (0, pos 6) e (in_tail (at_head refl))
ring-Mirrored false (suc (suc zero)) w k (in_tail (at_head e)) =
    moved_back false 2 (w, k) (1, pos 5) e (at_head refl)
ring-Mirrored false (suc (suc (suc u))) w k m = elim m [ ]
ring-Mirrored true zero w k (in_tail (in_tail m)) = elim m [ ]
ring-Mirrored true (suc zero) w k (in_tail m) = elim m [ ]
ring-Mirrored true (suc (suc zero)) w k (in_tail m) = elim m [ ]
ring-Mirrored false zero w k (in_tail m) = elim m [ ]
ring-Mirrored false (suc zero) w k (in_tail m) = elim m [ ]
ring-Mirrored false (suc (suc zero)) w k (in_tail (in_tail m)) = elim m [ ]

pub ring-Degree : Degree ring 2
unfolding neighbours clean_adjacency walk_adjacency
ring-Degree true zero = omega arith
ring-Degree true (suc zero) = omega arith
ring-Degree true (suc (suc zero)) = omega arith
ring-Degree true (suc (suc (suc u))) = omega arith
ring-Degree false zero = omega arith
ring-Degree false (suc zero) = omega arith
ring-Degree false (suc (suc zero)) = omega arith
ring-Degree false (suc (suc (suc u))) = omega arith
