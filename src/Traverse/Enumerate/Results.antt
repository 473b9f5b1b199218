-- ===== src/Traverse/Enumerate/Results.antt =====
-- What an enumeration leaves in the sink.
use blood_trail.Prelude.{
  ℕ, suc, ◌+◌, ◌^◌, ◌≤◌, ◌<◌, ◌≡◌, refl, ◌∙◌, ◌↔◌, Bool, true, false, not, List, [], ◌∷◌, ◌++◌,
  Option, some, length, length-append, map, All, Among, at_head, in_tail, arith, ℤ,
}
use blood_trail.Snapshot.Bitset.Mask.{KindMask}
use blood_trail.Traverse.Scratch.{Scratch, get}
use blood_trail.Traverse.Adjacency.{View, Edge, Mirrored}
use blood_trail.Traverse.Sink.{FoundPath}
use blood_trail.Traverse.Sink.Stored.{IsPath, Holds}
use blood_trail.Traverse.Bfs.Distances.{Distances}
use blood_trail.Traverse.Budget.{Store}
use blood_trail.Traverse.Machine.{Verdict, open_, full, failed, settle}
use blood_trail.Traverse.Machine.Walks.{steps, along, feed}
use blood_trail.Traverse.Machine.Prefix.{Prefix, store_of, feed-Prefix}
use blood_trail.Traverse.Enumerate.{enumerate_turn, enumerate}
use blood_trail.Traverse.Enumerate.Chains.{Chain}
use blood_trail.Traverse.Enumerate.Shortest.{enumerate-shortest}

abbrev pub no_error : Verdict → Bool
no_error (open_ st) = true
no_error (full st) = true
no_error (failed st) = false

pub settle-some : (v : Verdict) → settle v (λ x. some (x, true)) ≡ some (store_of v, no_error v)
unfolding settle
settle-some (open_ st) = refl
settle-some (full st) = refl
settle-some (failed st) = refl

along-IsPath :
    (P : List ℕ) (Q : List ℤ) (es : List Edge)
    → length P ≡ suc (length Q)
    → length P + length es < 2 ^ 16
    → IsPath (along P Q es)
along-IsPath P Q [] l b = record {
  some_node = omega (arith, l);
  short = omega (arith, b);
  kind_each = l;
}
along-IsPath P Q (e ∷ es) l b =
    along-IsPath (P ++ e.0 ∷ []) (Q ++ e.1 ∷ []) es
      (omega (arith, l, length-append P (e.0 ∷ []), length-append Q (e.1 ∷ [])))
      (omega (arith, b, length-append P (e.0 ∷ [])))

pub All-along :
    (u d : ℕ) (found : List (List Edge))
    → d < 2 ^ 15
    → ((es : List Edge) → Among es found → length es ≡ d)
    → All IsPath (map (along (u ∷ []) []) found)
All-along u d [] b h = tt
All-along u d (es ∷ found) b h = (
  along-IsPath (u ∷ []) [] es refl (omega (arith, b, h es (at_head refl))),
  All-along u d found b (λ xs m. h xs (in_tail m)),
)

-- From a node that the search reached, in d hops, where d is not 0, with fuel for its steps and a
-- sink that holds some paths: an enumeration ends, and the sink then holds those paths and after
-- them a prefix of a list, turned round unless it goes forward; the list is the paths along each
-- chain of d allowed edges to the seed, and no other; and what is left of it is empty, or the sink
-- has as many paths as the cap, or there is an error and the budget has no room for the next path.
-- The distances are those of a search from the seed against the direction of the enumeration,
-- within a bound of at most 127 hops, and the view's edges in are its edges out, from the other end.
pub enumerate_lem :
    (s : View) (forward : Bool) (kinds : Option KindMask) (seed bound : ℕ) (r : Scratch × ℕ)
    (u d c fuel : ℕ) (st : Store) (old : List FoundPath)
    → Mirrored s
    → bound ≤ 127
    → Distances s (not forward) kinds seed bound r
    → get r.0 u ≡ some d
    → 1 ≤ d
    → steps (enumerate_turn s r.0 kinds forward) d 1 u ≤ fuel
    → Holds st.sink old
    → (found : List (List Edge)) × (v : Verdict) × (enumerate fuel s u r.0 kinds c forward st
        ≡ some (store_of v, no_error v))
      × ((es : List Edge) → Among es found ↔ (Chain s forward kinds u es seed × (length es ≡ d)))
      × Prefix c (not forward) old (map (along (u ∷ []) []) found) v
enumerate_lem s forward kinds seed bound r u d c fuel st old mi small h g some_hop enough hs =
    let (found, e, m) =
      enumerate-shortest s forward kinds seed bound r u d c fuel st mi small h g some_hop enough in
    let xs = map (along (u ∷ []) []) found in
    let far : d < 2 ^ 15 = omega (arith, small, (h.sound u d g).0) in
    (
      found,
      feed c (not forward) xs st,
      e ∙ settle-some (feed c (not forward) xs st),
      m,
      feed-Prefix c (not forward) old xs st (All-along u d found far (λ es a. ((m es).0 a).1)) hs,
    )
