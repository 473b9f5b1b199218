-- ===== src/Interpret/Tri/Examples.antt =====
-- The connectives at nulls.
use blood_trail.Prelude.{◌≡◌, ◌&&◌, ◌||◌, not, map}
use blood_trail.Interpret.Tri.{tri_null, tri_false, tri_and, tri_or, tri_xor, tri_not}
use blood_trail.Interpret.Tri.Kleene.{values, agreed, outcomes, differ, connectives_lem}

connectives_lem_example :
    (tri_and tri_null tri_false
      ≡ agreed (outcomes (λ x y. x && y) (values tri_null) (values tri_false)))
    × (tri_or tri_null tri_false
        ≡ agreed (outcomes (λ x y. x || y) (values tri_null) (values tri_false)))
    × (tri_xor tri_null tri_false ≡ agreed (outcomes differ (values tri_null) (values tri_false)))
    × (tri_not tri_null ≡ agreed (map not (values tri_null)))
connectives_lem_example = connectives_lem tri_null tri_false
