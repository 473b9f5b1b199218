-- ===== src/Traverse/Sink/Examples.antt =====
-- Two paths in one sink, the second turned round.
use blood_trail.Prelude.{◌≡◌, refl, Bool, true, false, List, [], ◌∷◌, length, pos, arith, map}
use blood_trail.Traverse.Sink.{FoundPath, new_sink, paths, reset_sink}
use blood_trail.Traverse.Sink.Stored.{IsPath, add_all, oriented, paths-add_path}

abbrev there : FoundPath
there = record { nodes = 1 ∷ 2 ∷ []; kinds = pos 5 ∷ [] }

abbrev back : FoundPath
back = record { nodes = 3 ∷ 4 ∷ 5 ∷ []; kinds = pos 6 ∷ pos 7 ∷ [] }

abbrev two : List (FoundPath × Bool)
two = (there, false) ∷ (back, true) ∷ []

there-IsPath : IsPath there
there-IsPath = record { some_node = omega arith; short = omega arith; kind_each = refl }

back-IsPath : IsPath back
back-IsPath = record { some_node = omega arith; short = omega arith; kind_each = refl }

paths-add_path_example :
    (paths (add_all two (reset_sink new_sink)) ≡ map oriented two)
    × ((add_all two (reset_sink new_sink)).n ≡ length (map oriented two))
paths-add_path_example = paths-add_path two new_sink (there-IsPath, (back-IsPath, tt))
