-- ===== src/Traverse/Strategy/Examples.antt =====
-- A query on the sample view.
use blood_trail.Prelude.{◌≤◌, ◌<◌, All, refl, false, [], ◌∷◌, none, some, length, arith}
use blood_trail.Traverse.Samples.{ring, ring-InRange, ring-Mirrored, ring-Degree}
use blood_trail.Traverse.Query.{Query, all_per_pair, nodes}
use blood_trail.Traverse.Strategy.{all_shortest_paths}
use blood_trail.Traverse.Machine.Fuel.{tree}
use blood_trail.Traverse.Strategy.Errors.{Quiet, all_shortest_paths-Quiet}
use blood_trail.Traverse.Strategy.Limit.{all_shortest_paths-limit}

abbrev one_path : Query
one_path = record {
  roots = record { ids = some (1 ∷ 2 ∷ []); bits = none };
  terminals = record { ids = some (0 ∷ []); bits = none };
  kinds = none;
  mode = all_per_pair;
  exclude_self = false;
  max_depth = 0;
  limit = 1;
  memory_limit = 0;
  ctx = λ _. false;
  pair_budget = 0;
  side_budget = 0;
}

all_shortest_paths-limit_example : length (all_shortest_paths 100 ring one_path).0 ≤ one_path.limit
all_shortest_paths-limit_example = all_shortest_paths-limit 100 ring one_path (omega arith)

roots_there : All (λ u. u < ring.node_count) (nodes one_path.roots ring)
unfolding nodes
roots_there = (omega arith, (omega arith, tt))

terminals_there : All (λ u. u < ring.node_count) (nodes one_path.terminals ring)
unfolding nodes
terminals_there = (omega arith, tt)

all_shortest_paths-Quiet_example : Quiet (all_shortest_paths (tree 2 127) ring one_path)
all_shortest_paths-Quiet_example =
    all_shortest_paths-Quiet (tree 2 127) ring one_path 2 ring-InRange ring-Mirrored ring-Degree
      (omega arith) (λ n. refl) roots_there terminals_there refl
