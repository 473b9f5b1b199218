-- ===== src/Traverse/Pair/Route.antt =====
-- The edges that the enumeration between two distance buffers goes on over.
use blood_trail.Prelude.{
  ℕ, ◌≡◌, refl, sym, ap, ◌∙◌, ◌⊎◌, inl, inr, true, List, [], ◌∷◌, Option, some, ◌==◌, ==_iff, Among,
  at_head, in_tail, Among-head, ℤ, Bool-cases, Option-cases,
}
use mathlib.Core.Path.{subst}
use blood_trail.Snapshot.Bitset.Mask.{KindMask}
use blood_trail.Traverse.Scratch.{Scratch, get}
use blood_trail.Traverse.Adjacency.{Edge, allowed}
use blood_trail.Traverse.Pair.{on_route, on_both}

-- An edge that the filter keeps, or one that it had kept.
on_both_step :
    (kinds : Option KindMask) (f t : Scratch) (d next v : ℕ) (j : ℤ) (es : List Edge) (x : Edge)
    → (Among x (on_both kinds f t d next ((v, j) ∷ es))
        → ((x ≡ (v, j))
            × (allowed kinds j ≡ true)
            × (get f v ≡ some next)
            × ((y : ℕ) × (get t v ≡ some y) × (on_route next y d ≡ true)))
          ⊎ Among x (on_both kinds f t d next es))
      × (Among x (on_both kinds f t d next es) → Among x (on_both kinds f t d next ((v, j) ∷ es)))
unfolding on_both
on_both_step kinds f t d next v j es x = elim (Bool-cases (allowed kinds j)) [
  | inr a ↦ (λ m. inr (rw (a) at m), λ m. rw (a) m)
  | inl a ↦ elim (Option-cases (get f v)) [
    | inl g ↦ (λ m. inr (rw (a, g) at m), λ m. rw (a, g) m)
    | inr (dw, g) ↦ elim (Bool-cases (dw == next)) [
      | inr q ↦ (λ m. inr (rw (a, g, q) at m), λ m. rw (a, g, q) m)
      | inl q ↦ elim (Option-cases (get t v)) [
        | inl e ↦ (λ m. inr (rw (a, g, q, e) at m), λ m. rw (a, g, q, e) m)
        | inr (y, e) ↦ elim (Bool-cases (on_route dw y d)) [
          | inr o ↦ (λ m. inr (rw (a, g, q, e, o) at m), λ m. rw (a, g, q, e, o) m)
          | inl o ↦ (
            λ m.
                elim (Among-head x (v, j) (on_both kinds f t d next es) (rw (a, g, q, e, o) at m)) [
                  | inl s ↦
                      let same : dw ≡ next = (==_iff dw next).0 q in
                      inl
                        (s, a, g ∙ ap some same, (y, e, subst (λ n. on_route n y d ≡ true) same o))
                  | inr r ↦ inr r
                ],
            λ m. rw (a, g, q, e, o) (in_tail m),
          )
        ]
      ]
    ]
  ]
]

pub on_both-Among :
    (kinds : Option KindMask) (f t : Scratch) (d next w : ℕ) (k : ℤ) (es : List Edge)
    → Among (w, k) (on_both kinds f t d next es)
    → Among (w, k) es
      × (allowed kinds k ≡ true)
      × (get f w ≡ some next)
      × ((y : ℕ) × (get t w ≡ some y) × (on_route next y d ≡ true))
unfolding on_both
on_both-Among kinds f t d next w k [] m = elim m [ ]
on_both-Among kinds f t d next w k ((v, j) ∷ es) m =
    elim ((on_both_step kinds f t d next v j es (w, k)).0 m) [
      | inl (e, a, g, (y, h, o)) ↦ (
        at_head e,
        subst (λ x. allowed kinds x.1 ≡ true) (sym e) a,
        subst (λ x. get f x.0 ≡ some next) (sym e) g,
        (y, subst (λ x. get t x.0 ≡ some y) (sym e) h, o),
      )
      | inr r ↦ let (n, a, g, o) = on_both-Among kinds f t d next w k es r in (in_tail n, a, g, o)
    ]

pub Among-on_both :
    (kinds : Option KindMask) (f t : Scratch) (d next w : ℕ) (k : ℤ) (y : ℕ) (es : List Edge)
    → Among (w, k) es
    → allowed kinds k ≡ true
    → get f w ≡ some next
    → get t w ≡ some y
    → on_route next y d ≡ true
    → Among (w, k) (on_both kinds f t d next es)
unfolding on_both
Among-on_both kinds f t d next w k y [] m a g h o = elim m [ ]
Among-on_both kinds f t d next w k y ((v, j) ∷ es) (at_head e) a g h o =
    let same : (next == next) ≡ true = (==_iff next next).1 refl in
    subst (λ x. Among (w, k) (on_both kinds f t d next (x ∷ es))) e
      (rw (a, g, same, h, o) (at_head refl))
Among-on_both kinds f t d next w k y ((v, j) ∷ es) (in_tail m) a g h o =
    (on_both_step kinds f t d next v j es (w, k)).1
      (Among-on_both kinds f t d next w k y es m a g h o)
