-- ===== src/Traverse/Bfs/Examples.antt =====
-- The breadth-first search on a small view with a cycle.
use blood_trail.Prelude.{◌≡◌, refl, true, none, arith}
use blood_trail.Traverse.Scratch.{new_scratch, reset, get, put}
use blood_trail.Traverse.Scratch.Laws.{new_scratch-IsScratch}
use blood_trail.Traverse.Adjacency.{neighbours, clean_adjacency, allowed}
use blood_trail.Traverse.Samples.{ring, ring-InRange}
use blood_trail.Traverse.Bfs.{bfs_from, rounds_from, expand, visit_all, visit}
use blood_trail.Traverse.Bfs.Distances.{Distances, bfs_from-Distances}

ring_runs : (bfs_from ring 1 true none 15 (new_scratch 4)).1 ≡ 2
unfolding bfs_from rounds_from expand visit_all visit neighbours clean_adjacency allowed new_scratch
    reset get put
ring_runs = refl

bfs_from-Distances_example :
    Distances ring true none 1 15 (bfs_from ring 1 true none 15 (new_scratch 4))
bfs_from-Distances_example =
    bfs_from-Distances ring 1 true none 15 (new_scratch 4) ring-InRange (omega arith) (omega arith)
      (new_scratch-IsScratch 4)
