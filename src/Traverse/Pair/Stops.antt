-- ===== src/Traverse/Pair/Stops.antt =====
-- Why the search from both ends stops, and one level of a side.
use blood_trail.Prelude.{
  ℕ, suc, ◌+◌, ◌≤◌, ◌<◌, ◌≡◌, refl, sym, ◌⊎◌, inl, inr, Bool, true, List, [], ◌∷◌, Option, none,
  some, Bool-cases, arith, leb→le,
}
use mathlib.Core.Path.{subst}
use blood_trail.Snapshot.Bitset.Mask.{KindMask}
use blood_trail.Traverse.Scratch.{Scratch}
use blood_trail.Traverse.Adjacency.{View, InRange}
use blood_trail.Traverse.Bfs.{Level, expand, deepest_after}
use blood_trail.Traverse.Bfs.Expansion.{expand-Expands}
use blood_trail.Traverse.Bfs.Distances.{Inv, Inv-next}
use blood_trail.Traverse.Pair.{Meet, meet_limit, met_enough, meet_expand, none_left}
use blood_trail.Traverse.Pair.Level.{Least, meet_expand-expand}

pub Least-sym : (a b : Scratch) (best : Option ℕ) → Least a b best → Least b a best
Least-sym a b best l = record {
  attained = λ d q. let (v, x, y, f, g, e) = l.attained d q in (v, y, x, g, f, omega (arith, e));
  below = λ v x y f g. let (d, q, e) = l.below v y x g f in (d, q, omega (arith, e));
}

pub meet_limit-le : (n : ℕ) (o : Option ℕ) → meet_limit n o ≤ n
meet_limit-le n none = omega arith
meet_limit-le n (some d) = ground arith

-- A bound that passes the limit passes D, where the bound is within the depth.
pub meet_limit-above :
    (n k l : ℕ) (o : Option ℕ)
    → meet_limit n o ≤ k
    → k < l
    → l ≤ n
    → (d : ℕ) × (o ≡ some d) × (d ≤ l)
meet_limit-above n k l none h a b = absurd (omega (arith, h, a, b))
meet_limit-above n k l (some d) h a b = (d, refl, ground (arith, h, a, b))

pub none_left-nil : (us : List ℕ) → none_left us ≡ true → us ≡ []
none_left-nil [] h = refl
none_left-nil (u ∷ us) h = cc

-- Why the loop stopped.
pub enough-cases :
    (n : ℕ) (m : Meet)
    → met_enough n m ≡ true
    → (m.front_f ≡ []) ⊎ (m.front_b ≡ []) ⊎ (meet_limit n m.best ≤ m.levels_f + m.levels_b)
unfolding met_enough
enough-cases n m h = elim (Bool-cases (none_left m.front_f)) [
  | inl e ↦ inl (none_left-nil m.front_f e)
  | inr e ↦ elim (Bool-cases (none_left m.front_b)) [
    | inl f ↦ inr (inl (none_left-nil m.front_b f))
    | inr f ↦
        inr (inr (leb→le (meet_limit n m.best) (m.levels_f + m.levels_b) (ground (arith, h, e, f))))
  ]
]

-- A level of either side.
pub side_level :
    (s : View) (kinds : Option KindMask) (ranged : InRange s) (forward : Bool) (seed : ℕ)
    (n deepest : ℕ) (us : List ℕ) (sc other : Scratch) (best : Option ℕ)
    → n < 127
    → Inv s forward kinds seed ranged n deepest us sc
    → Least sc other best
    → (deepest' : ℕ) × Inv s forward kinds seed ranged
        (suc n)
        deepest'
        (meet_expand s forward kinds n other (record { sc = sc; next = []; best = best }) us).next
        (meet_expand s forward kinds n other (record { sc = sc; next = []; best = best }) us).sc
      × Least
          (meet_expand s forward kinds n other (record { sc = sc; next = []; best = best }) us).sc
          other
          (meet_expand s forward kinds n other (record { sc = sc; next = []; best = best }) us).best
side_level s kinds ranged forward seed n deepest us sc other best p i l =
    let (same, least) = meet_expand-expand s forward n kinds other sc best us ranged i.scratch l in
    (
      deepest_after n deepest
          (meet_expand s forward kinds n other (record { sc = sc; next = []; best = best })
            us).next,
      subst
          (λ (x : Level).
            Inv s forward kinds seed ranged (suc n) (deepest_after n deepest x.next) x.next x.sc)
          (sym same)
          (Inv-next s forward kinds seed ranged n deepest us sc
            (expand s forward kinds n (record { sc = sc; next = [] }) us) p i
            (expand-Expands s forward kinds n (record { sc = sc; next = [] }) us ranged i.scratch)),
      least,
    )
