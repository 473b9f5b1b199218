-- ===== src/Interpret/Tri/Kleene.antt =====
-- The connectives against the truth values that a null may turn out to have.
use blood_trail.Prelude.{
  Bool, true, false, not, ◌&&◌, ◌||◌, ◌≡◌, refl, List, [], ◌∷◌, ◌++◌, map, if◌then◌else◌,
}
use blood_trail.Interpret.Tri.{
  Tri, tri_false, tri_true, tri_null, tri_and, tri_or, tri_not, tri_xor,
}

-- The truth values that a value may have.
abbrev pub values : Tri → List Bool
values tri_false = false ∷ []
values tri_true = true ∷ []
values tri_null = false ∷ true ∷ []

abbrev pub every : List Bool → Bool
every [] = true
every (b ∷ bs) = b && every bs

-- The value that all of them are, or null where they differ.
abbrev pub agreed : List Bool → Tri
agreed bs = if every bs then tri_true else if every (map not bs) then tri_false else tri_null

abbrev pub outcomes : (Bool → Bool → Bool) → List Bool → List Bool → List Bool
outcomes f [] ys = []
outcomes f (x ∷ xs) ys = map (f x) ys ++ outcomes f xs ys

abbrev pub differ : Bool → Bool → Bool
differ true b = not b
differ false b = b

-- Each connective answers what its Boolean counterpart answers for all the truth values that its
-- arguments may have, and null where those answers differ.
pub connectives_lem :
    (t o : Tri)
    → (tri_and t o ≡ agreed (outcomes (λ x y. x && y) (values t) (values o)))
      × (tri_or t o ≡ agreed (outcomes (λ x y. x || y) (values t) (values o)))
      × (tri_xor t o ≡ agreed (outcomes differ (values t) (values o)))
      × (tri_not t ≡ agreed (map not (values t)))
unfolding tri_and tri_or tri_xor tri_not
connectives_lem tri_false tri_false = (refl, refl, refl, refl)
connectives_lem tri_false tri_true = (refl, refl, refl, refl)
connectives_lem tri_false tri_null = (refl, refl, refl, refl)
connectives_lem tri_true tri_false = (refl, refl, refl, refl)
connectives_lem tri_true tri_true = (refl, refl, refl, refl)
connectives_lem tri_true tri_null = (refl, refl, refl, refl)
connectives_lem tri_null tri_false = (refl, refl, refl, refl)
connectives_lem tri_null tri_true = (refl, refl, refl, refl)
connectives_lem tri_null tri_null = (refl, refl, refl, refl)
