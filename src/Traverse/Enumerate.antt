-- ===== src/Traverse/Enumerate.antt =====
-- internal/engine/traverse/bfs.go, enumerate: every shortest path between one node and the seed of
-- a search that left its distances in a scratch buffer. An int8 is its bit pattern.
pub mod Chains
pub mod Shortest
pub mod Results
mod Examples
use blood_trail.Prelude.{
  ℕ, ◌+◌, ◌%◌, Bool, true, not, List, [], ◌∷◌, Option, none, some, ltb, ◌==◌, if◌then◌else◌, ℤ, pos,
}
use blood_trail.Snapshot.Bitset.Mask.{KindMask}
use blood_trail.Traverse.Scratch.{Scratch, get}
use blood_trail.Traverse.Adjacency.{View, Edge, neighbours, allowed}
use blood_trail.Traverse.Budget.{Store}
use blood_trail.Traverse.Machine.{Turn, skip, arrive, onward, run, start}

-- `du-1` on an int8.
abbrev pub pred8 : ℕ → ℕ
pred8 d = (d + 255) % 256

-- The calls of `visit` that push: an allowed edge to a node at that distance.
unfoldable pub closer : Option KindMask → Scratch → ℕ → List Edge → List Edge
closer kinds sc d [] = []
closer kinds sc d ((w, k) ∷ es) =
    let rest = closer kinds sc d es in
    if allowed kinds k
    then (elim (get sc w) [ none ↦ rest | some dw ↦ if dw == d then (w, k) ∷ rest else rest ])
    else rest

unfoldable pub enumerate_turn : View → Scratch → Option KindMask → Bool → ℕ → ℕ → Turn
enumerate_turn s sc kinds forward u len = elim (get sc u) [
  | none ↦ skip
  | some du ↦
      if du == 0
      then if ltb len 2 then skip else arrive
      else onward (closer kinds sc (pred8 du) (neighbours s forward u))
]

unfoldable pub enumerate :
    ℕ → View → ℕ → Scratch → Option KindMask → ℕ → Bool → Store → Option (Store × Bool)
enumerate fuel s from_ sc kinds cap forward st =
    run (enumerate_turn s sc kinds forward) cap (not forward) fuel
      (record { node = from_; kind = pos 0; depth = 0 } ∷ []) (start from_ st)
