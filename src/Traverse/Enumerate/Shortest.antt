-- ===== src/Traverse/Enumerate/Shortest.antt =====
-- The walk over falling distances takes every shortest path and no other.
use blood_trail.Prelude.{
  ℕ, zero, suc, ◌+◌, ◌≤◌, ◌<◌, ◌≡◌, refl, sym, ap, ◌∙◌, inl, inr, ◌↔◌, Bool, true, false, not,
  Bool-cases, List, [], ◌∷◌, Option, some, length, ltb, ◌==◌, if◌then◌else◌, map, All, Among,
  at_head, in_tail, Among-head, append-Among, Among-append_left, Among-append_right, Among-reverse,
  reverse-Among, Among-map, map-Among, arith,
}
use mathlib.Core.Path.{subst}
use mathlib.Core.List.{reverse}
use native.Mathlib.Decide.{dec_le}
use blood_trail.Snapshot.Bitset.Mask.{KindMask}
use blood_trail.Traverse.Scratch.{Scratch, get}
use blood_trail.Traverse.Adjacency.{View, Edge, Mirrored, neighbours}
use blood_trail.Traverse.Bfs.Distances.{Distances}
use blood_trail.Traverse.Budget.{Store}
use blood_trail.Traverse.Machine.{Turn, skip, arrive, onward, settle}
use blood_trail.Traverse.Machine.Walks.{each, walks, steps, Shallow, along, feed}
use blood_trail.Traverse.Machine.Frames.{walks-onward, leaf_walks}
use blood_trail.Traverse.Machine.Run.{run-walks}
use blood_trail.Traverse.Enumerate.{closer, pred8, enumerate_turn, enumerate}
use blood_trail.Traverse.Enumerate.Chains.{
  Chain, Labels, closer-Among, Among-closer, Distances-Labels,
}

pub each-Among :
    (f : Edge → List (List Edge)) (p : List Edge) (es : List Edge)
    → Among p (each f es)
    → (e : Edge) × Among e es × Among p (f e)
each-Among f p [] m = elim m [ ]
each-Among f p (e ∷ es) m = elim (append-Among p (f e) (each f es) m) [
  | inl h ↦ (e, at_head refl, h)
  | inr h ↦ let (x, a, b) = each-Among f p es h in (x, in_tail a, b)
]

pub Among-each :
    (f : Edge → List (List Edge)) (p : List Edge) (e : Edge) (es : List Edge)
    → Among e es
    → Among p (f e)
    → Among p (each f es)
Among-each f p e [] m h = elim m [ ]
Among-each f p e (x ∷ es) (at_head q) h =
    Among-append_left p (f x) (each f es) (subst (λ y. Among p (f y)) q h)
Among-each f p e (x ∷ es) (in_tail m) h =
    Among-append_right p (f x) (each f es) (Among-each f p e es m h)

pub All-Among {ℓ κ} :
    {A : Type ℓ} (P : A → Type κ) (xs : List A) → ((x : A) → Among x xs → P x) → All P xs
All-Among P [] h = tt
All-Among P (x ∷ xs) h = (h x (at_head refl), All-Among P xs (λ y m. h y (in_tail m)))

abbrev pub edges_of : Turn → List Edge
edges_of skip = []
edges_of arrive = []
edges_of (onward es) = es

module _ (s : View) (sc : Scratch) (kinds : Option KindMask) (forward : Bool) where
  abbrev pub turn : ℕ → ℕ → Turn
  turn u len = enumerate_turn s sc kinds forward u len

  turn-zero : (u len : ℕ) → get sc u ≡ some 0 → turn u len ≡ (if ltb len 2 then skip else arrive)
  unfolding enumerate_turn
  turn-zero u len g = rw (g, enumerate_turn) refl

  turn-suc :
      (u len h : ℕ)
      → h < 127
      → get sc u ≡ some (suc h)
      → turn u len ≡ onward (closer kinds sc h (neighbours s forward u))
  unfolding enumerate_turn
  turn-suc u len h b g =
      let e : (suc h == 0) ≡ false = ground arith in
      let p : pred8 (suc h) ≡ h = omega (arith, b) in rw (g, enumerate_turn) (rw (e, p) refl)

  -- The distance bounds the hops of the walk.
  pub falls : (h u len : ℕ) → h ≤ 127 → get sc u ≡ some h → Shallow turn h len u
  unfolding Shallow
  falls zero u len b g = λ es e.
      let q = sym (turn-zero u len g) ∙ e in
      elim (Bool-cases (ltb len 2)) [
        | inl t ↦ let r : skip ≡ onward es = rw (t) at q in cc
        | inr t ↦ let r : arrive ≡ onward es = rw (t) at q in cc
      ]
  falls (suc h) u len b g = λ es e.
      let q = ap edges_of (sym (turn-suc u len h (omega (arith, b)) g) ∙ e) in
      subst (λ es. All (λ (e : Edge). Shallow turn h (suc len) e.0) (reverse es)) q
        (All-Among (λ (e : Edge). Shallow turn h (suc len) e.0) _
          (λ e m.
            let (_, _, g') =
              closer-Among kinds sc h e.0 e.1 (neighbours s forward u) (reverse-Among e _ m) in
            falls h e.0 (suc len) (omega (arith, b)) g'))

  module _ (t bound : ℕ) (l : Labels s forward kinds t bound sc) (small : bound ≤ 127) where
    least :
        (u d : ℕ) (es : List Edge)
        → get sc u ≡ some d
        → Chain s forward kinds u es t
        → d ≤ length es
    least u d es g c = elim (dec_le (length es) bound) [
      | yes p ↦ let (e, le, g') = l.complete u es c p in ground (arith, g, g', le)
      | no p ↦ omega (arith, p, (l.reached u d g).0)
    ]

    at_end : (u : ℕ) → get sc u ≡ some 0 → u ≡ t
    at_end u g = let (_, (es, c, q)) = l.reached u 0 g in at_end_of u es c q
      where
        at_end_of : (u : ℕ) (es : List Edge) → Chain s forward kinds u es t → length es ≡ 0 → u ≡ t
        at_end_of u [] c q = c
        at_end_of u (e ∷ es) c q = absurd (omega (arith, q))

    walks-zero : (u len : ℕ) → 2 ≤ len → get sc u ≡ some 0 → walks turn 0 len u ≡ [] ∷ []
    walks-zero u len b g =
        let f : ltb len 2 ≡ false = ground (arith, b) in
        ((leaf_walks turn 0 len u).1 (turn-zero u len g ∙ rw (f) refl)).0

    walks-suc :
        (h u len : ℕ)
        → h < 127
        → get sc u ≡ some (suc h)
        → walks turn (suc h) len u
          ≡ each
              (λ e. map (λ p. e ∷ p) (walks turn h (suc len) e.0))
              (reverse (closer kinds sc h (neighbours s forward u)))
    walks-suc h u len b g = walks-onward turn h len u _ (turn-suc u len h b g)

    walks-Chain :
        (h u len : ℕ) (es : List Edge)
        → 2 ≤ h + len
        → get sc u ≡ some h
        → Among es (walks turn h len u)
        → Chain s forward kinds u es t × (length es ≡ h)
    walks-Chain zero u len es b g m =
        elim (Among-head es [] [] (rw (walks-zero u len (omega (arith, b)) g) at m)) [
          | inl e ↦
              subst (λ x. Chain s forward kinds u x t × (length x ≡ 0)) (sym e) (at_end u g, refl)
          | inr x ↦ elim x [ ]
        ]
    walks-Chain (suc h) u len es b g m =
        let near : h < 127 = omega (arith, (l.reached u (suc h) g).0, small) in
        let (e, a, x) = each-Among _ es _ (rw (walks-suc h u len near g) at m) in
        let (p, y, q) = map-Among (λ p. e ∷ p) es (walks turn h (suc len) e.0) x in
        let (n, k, g') =
          closer-Among kinds sc h e.0 e.1 (neighbours s forward u) (reverse-Among e _ a) in
        let (c, r) = walks-Chain h e.0 (suc len) p (omega (arith, b)) g' y in
        subst (λ x. Chain s forward kinds u x t × (length x ≡ suc h)) (sym q) ((n, k, c), ap suc r)

    Chain-walks :
        (h u len : ℕ) (es : List Edge)
        → 2 ≤ h + len
        → get sc u ≡ some h
        → Chain s forward kinds u es t
        → length es ≡ h
        → Among es (walks turn h len u)
    Chain-walks zero u len [] b g c q =
        subst (λ w. Among [] w) (sym (walks-zero u len (omega (arith, b)) g)) (at_head refl)
    Chain-walks zero u len (e ∷ es) b g c q = absurd (omega (arith, q))
    Chain-walks (suc h) u len [] b g c q = absurd (omega (arith, q))
    Chain-walks (suc h) u len (e ∷ es) b g (n, k, c) q =
        let below = (l.reached u (suc h) g).0 in
        let near : h < 127 = omega (arith, below, small) in
        let (d, le, g') = l.complete e.0 es c (omega (arith, q, below)) in
        let (_, (ds, cd, ld)) = l.reached e.0 d g' in
        let at_least = least u (suc h) (e ∷ ds) g (n, k, cd) in
        let d-h : d ≡ h = omega (arith, le, q, ld, at_least) in
        let g'' : get sc e.0 ≡ some h = g' ∙ ap some d-h in
        subst (λ w. Among (e ∷ es) w) (sym (walks-suc h u len near g))
          (Among-each (λ e. map (λ p. e ∷ p) (walks turn h (suc len) e.0)) (e ∷ es) e _
            (Among-reverse e _ (Among-closer kinds sc h e.0 e.1 (neighbours s forward u) n k g''))
            (Among-map (λ p. e ∷ p) es (walks turn h (suc len) e.0)
              (Chain-walks h e.0 (suc len) es (omega (arith, b)) g'' c (omega (arith, q)))))

-- From a node that the search reached, in d hops, where d is not 0: an enumeration with fuel for
-- its steps feeds the store, under the cap and turned round unless it goes forward, with a list of
-- walks from that node, and returns what the store was left as; and the list has a sequence of hops
-- if and only if it is a shortest one, that is, a chain of d allowed edges to the seed. The
-- distances are those of a search from the seed against the direction of the enumeration, within a
-- bound of at most 127 hops, and the view's edges in are its edges out, from the other end.
pub enumerate-shortest :
    (s : View) (forward : Bool) (kinds : Option KindMask) (seed bound : ℕ) (r : Scratch × ℕ)
    (u d cap fuel : ℕ) (st : Store)
    → Mirrored s
    → bound ≤ 127
    → Distances s (not forward) kinds seed bound r
    → get r.0 u ≡ some d
    → 1 ≤ d
    → steps (enumerate_turn s r.0 kinds forward) d 1 u ≤ fuel
    → (found : List (List Edge)) × (enumerate fuel s u r.0 kinds cap forward st
        ≡ settle (feed cap (not forward) (map (along (u ∷ []) []) found) st) (λ x. some (x, true)))
      × ((es : List Edge) → Among es found ↔ (Chain s forward kinds u es seed × (length es ≡ d)))
unfolding enumerate
enumerate-shortest s forward kinds seed bound r u d cap fuel st mi small h g some_hop enough =
    let l = Distances-Labels s forward kinds seed bound r mi h in
    let fits : d ≤ 127 = omega (arith, small, (l.reached u d g).0) in
    let two : 2 ≤ d + 1 = omega (arith, some_hop) in
    (
      walks (enumerate_turn s r.0 kinds forward) d 1 u,
      run-walks (enumerate_turn s r.0 kinds forward) cap (not forward) d u fuel st
          (omega (arith, fits)) (falls s r.0 kinds forward d u 1 fits g) enough,
      λ es. (
        λ m. walks-Chain s r.0 kinds forward seed bound l small d u 1 es two g m,
        λ (c, q). Chain-walks s r.0 kinds forward seed bound l small d u 1 es two g c q,
      ),
    )
