-- ===== src/Traverse/Adjacency.antt =====
-- internal/engine/traverse/bfs.go, cleanAdjacency and walkAdjacency, and the edge-kind filter that
-- every search applies to a neighbour. `View` stands for what the searches use of the overlay
-- view (internal/engine/snapshot/view.go): its slices, where it has them, and its edge walks.
use blood_trail.Prelude.{
  ℕ, ◌<◌, Bool, true, List, [], ◌∷◌, Option, none, some, ℤ, All, not, ◌≤◌, length, Among,
  if◌then◌else◌,
}
use blood_trail.Snapshot.Bitset.Mask.{KindMask}
use blood_trail.Snapshot.Bitset.Mask

-- A neighbour and the kind of the edge to it.
abbrev pub Edge : Type 0
Edge = ℕ × ℤ

-- `out_slices u` is none where OutSlices answers ok = false. `base_out` is Out, of the base snapshot,
-- `overlay` whether there is a delta over it, in which some nodes are not `alive`.
pub record View : Type 0 where
  pub node_count : ℕ
  pub out_slices : ℕ → Option (List Edge)
  pub in_slices : ℕ → Option (List Edge)
  pub out_edges : ℕ → List Edge
  pub in_edges : ℕ → List Edge
  pub base_out : ℕ → List Edge
  pub overlay : Bool
  pub alive : ℕ → Bool

unfoldable pub clean_adjacency : View → ℕ → Bool → Option (List Edge)
clean_adjacency s u forward = if forward then s.out_slices u else s.in_slices u

unfoldable pub walk_adjacency : View → ℕ → Bool → List Edge
walk_adjacency s u forward = if forward then s.out_edges u else s.in_edges u

-- The neighbours in the order in which `visit` is called on them.
unfoldable pub neighbours : View → Bool → ℕ → List Edge
neighbours s forward u = elim (clean_adjacency s u forward) [
  | some es ↦ es
  | none ↦ walk_adjacency s u forward
]

-- `kinds != nil && !kinds.Has(k)` refuses an edge; no mask allows every kind.
unfoldable pub allowed : Option KindMask → ℤ → Bool
allowed none k = true
allowed (some m) k = Mask.has m k

-- The neighbours over an allowed edge.
unfoldable pub targets : Option KindMask → List Edge → List ℕ
targets kinds [] = []
targets kinds ((w, k) ∷ es) = if allowed kinds k then w ∷ targets kinds es else targets kinds es

-- Every neighbour is a node of the view.
abbrev pub InRange : View → Type 0
InRange s =
    (forward : Bool) (u : ℕ) → All (λ (e : Edge). e.0 < s.node_count) (neighbours s forward u)

-- The edges into a node are those out of the others.
abbrev pub Mirrored : View → Type 0
Mirrored s =
    (forward : Bool) (u w : ℕ) (k : ℤ)
    → Among (w, k) (neighbours s forward u)
    → Among (u, k) (neighbours s (not forward) w)

-- No node has more neighbours than that.
abbrev pub Degree : View → ℕ → Type 0
Degree s w = (forward : Bool) (u : ℕ) → length (neighbours s forward u) ≤ w
