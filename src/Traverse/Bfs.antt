-- ===== src/Traverse/Bfs.antt =====
-- internal/engine/traverse/bfs.go, bfsFrom: a breadth-first search over the allowed edges, up to a
-- depth, that leaves its distances in a scratch buffer.
pub mod Expansion
pub mod Distances
mod Examples
use blood_trail.Prelude.{
  ℕ, zero, suc, ◌+◌, Bool, List, [], ◌∷◌, ◌++◌, Option, none, some, if◌then◌else◌, ℤ,
}
use blood_trail.Snapshot.Bitset.Mask.{KindMask}
use blood_trail.Traverse.Scratch.{Scratch, reset, get, put, int8}
use blood_trail.Traverse.Adjacency.{View, Edge, neighbours, allowed}

-- The buffer, and the frontier that is being built.
pub record Level : Type 0 where
  pub sc : Scratch
  pub next : List ℕ

-- The closure `visit` in round d.
unfoldable pub visit : Option KindMask → ℕ → Level → Edge → Level
visit kinds d l (w, k) =
    if allowed kinds k
    then (elim (get l.sc w) [
      | some _ ↦ l
      | none ↦ record { sc = put l.sc w (int8 (d + 1)); next = l.next ++ w ∷ [] }
    ])
    else l

unfoldable pub visit_all : Option KindMask → ℕ → Level → List Edge → Level
visit_all kinds d l [] = l
visit_all kinds d l (e ∷ es) = visit_all kinds d (visit kinds d l e) es

-- The loop over the frontier in round d.
unfoldable pub expand : View → Bool → Option KindMask → ℕ → Level → List ℕ → Level
expand s forward kinds d l [] = l
expand s forward kinds d l (u ∷ us) =
    expand s forward kinds d (visit_all kinds d l (neighbours s forward u)) us

abbrev pub deepest_after : ℕ → ℕ → List ℕ → ℕ
deepest_after d deepest [] = deepest
deepest_after d deepest (_ ∷ _) = d + 1

-- The outer loop, with `rounds` = maxDepth - d left.
unfoldable pub rounds_from :
    View → Bool → Option KindMask → ℕ → ℕ → List ℕ → ℕ → Scratch → Scratch × ℕ
rounds_from s forward kinds zero d frontier deepest sc = (sc, deepest)
rounds_from s forward kinds (suc rounds) d frontier deepest sc =
    let l = expand s forward kinds d (record { sc = sc; next = [] }) frontier in
    let rest =
      rounds_from s forward kinds rounds (d + 1) l.next (deepest_after d deepest l.next) l.sc in
    elim frontier [ [] ↦ (sc, deepest) | _ ∷ _ ↦ rest ]

unfoldable pub bfs_from : View → ℕ → Bool → Option KindMask → ℕ → Scratch → Scratch × ℕ
unfolding rounds_from
bfs_from s seed forward kinds max_depth sc =
    rounds_from s forward kinds max_depth 0 (seed ∷ []) 0 (put (reset sc) seed 0)
