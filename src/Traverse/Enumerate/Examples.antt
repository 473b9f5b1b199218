-- ===== src/Traverse/Enumerate/Examples.antt =====
-- The shortest path from node 1 to node 0 of the sample view.
use blood_trail.Prelude.{
  ℕ, ◌≡◌, refl, ◌↔◌, true, false, List, [], ◌∷◌, none, some, length, map, Among, arith,
}
use blood_trail.Traverse.Scratch.{Scratch, new_scratch, reset, get, put}
use blood_trail.Traverse.Scratch.Laws.{new_scratch-IsScratch}
use blood_trail.Traverse.Adjacency.{Edge, neighbours, clean_adjacency, walk_adjacency, allowed}
use blood_trail.Traverse.Samples.{ring, ring-InRange, ring-Mirrored}
use blood_trail.Traverse.Sink.{new_sink}
use blood_trail.Traverse.Sink.Stored.{new_sink-Holds}
use blood_trail.Traverse.Bfs.{bfs_from, rounds_from, expand, visit_all, visit}
use blood_trail.Traverse.Bfs.Distances.{bfs_from-Distances}
use blood_trail.Traverse.Budget.{Store}
use blood_trail.Traverse.Machine.{Verdict}
use blood_trail.Traverse.Machine.Walks.{steps, along}
use blood_trail.Traverse.Machine.Prefix.{Prefix, store_of}
use blood_trail.Traverse.Enumerate.{enumerate, enumerate_turn, closer}
use blood_trail.Traverse.Enumerate.Chains.{Chain}
use blood_trail.Traverse.Enumerate.Results.{no_error, enumerate_lem}

abbrev from_1 : Scratch × ℕ
from_1 = bfs_from ring 1 true none 15 (new_scratch 4)

abbrev empty : Store
empty = record { budget = record { limit = 0; used = 0; reserved = 0 }; sink = new_sink }

two_hops : get from_1.0 0 ≡ some 2
unfolding bfs_from rounds_from expand visit_all visit neighbours clean_adjacency allowed new_scratch
    reset get put
two_hops = refl

three_rounds : steps (enumerate_turn ring from_1.0 none false) 2 1 0 ≡ 3
unfolding bfs_from rounds_from expand visit_all visit neighbours clean_adjacency walk_adjacency
    allowed new_scratch reset get put steps enumerate_turn closer
three_rounds = refl

enumerate_lem_example :
    (found : List (List Edge)) × (v : Verdict) × (enumerate 9 ring 0 from_1.0 none 1 false empty
      ≡ some (store_of v, no_error v))
    × ((es : List Edge) → Among es found ↔ (Chain ring false none 0 es 1 × (length es ≡ 2)))
    × Prefix 1 true [] (map (along (0 ∷ []) []) found) v
enumerate_lem_example =
    enumerate_lem ring false none 1 15 from_1 0 2 1 9 empty [] ring-Mirrored (omega arith)
      (bfs_from-Distances ring 1 true none 15 (new_scratch 4) ring-InRange (omega arith)
        (omega arith) (new_scratch-IsScratch 4))
      two_hops (omega arith) (omega (arith, three_rounds)) new_sink-Holds
