-- ===== src/Traverse/Pair/Examples.antt =====
-- The pair of nodes 1 and 0 of the sample view.
use blood_trail.Prelude.{ℕ, ◌≢◌, [], none, arith}
use blood_trail.Traverse.Scratch.{new_scratch}
use blood_trail.Traverse.Scratch.Laws.{new_scratch-IsScratch}
use blood_trail.Traverse.Samples.{ring, ring-InRange, ring-Mirrored, ring-Degree}
use blood_trail.Traverse.Sink.{new_sink}
use blood_trail.Traverse.Sink.Stored.{new_sink-Holds}
use blood_trail.Traverse.Budget.{Store}
use blood_trail.Traverse.Pair.{Buffers, pair_shortest, pair_paths}
use blood_trail.Traverse.Pair.Shortest.{IsFound, pair_shortest-IsFound}
use blood_trail.Traverse.Pair.Results.{Stored, pair_paths-Stored}

abbrev three : Buffers
three = record { f = new_scratch 4; t = new_scratch 4; tmp = new_scratch 4 }

abbrev empty : Store
empty = record { budget = record { limit = 0; used = 0; reserved = 0 }; sink = new_sink }

abbrev root : ℕ
root = 1

apart : root ≢ 0
apart = λ e. omega (arith, e)

pair_shortest-IsFound_example : IsFound ring none root 0 3 (pair_shortest ring root 0 none 3 three)
pair_shortest-IsFound_example =
    pair_shortest-IsFound ring root 0 none 3 three ring-InRange ring-Mirrored apart (omega arith)
      (omega arith) (omega arith) (new_scratch-IsScratch 4) (new_scratch-IsScratch 4)
      (new_scratch-IsScratch 4)

pair_paths-Stored_example :
    Stored ring none root 0 3 1 [] (pair_paths 15 ring root 0 none 3 1 three empty).0
pair_paths-Stored_example =
    pair_paths-Stored 15 ring root 0 none 3 1 2 three empty [] ring-InRange ring-Mirrored apart
      (omega arith) (omega arith) (omega arith) (new_scratch-IsScratch 4) (new_scratch-IsScratch 4)
      (new_scratch-IsScratch 4) ring-Degree (omega arith) new_sink-Holds
