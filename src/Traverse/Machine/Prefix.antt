-- ===== src/Traverse/Machine/Prefix.antt =====
-- What feeding a store a list of paths leaves: the paths up to the one at which it stopped.
use blood_trail.Prelude.{
  ℕ, ◌≡◌, refl, sym, ap, Bool, List, [], ◌∷◌, ◌++◌, none, length, arith, map, All, append_assoc,
  append-nil,
}
use mathlib.Core.Path.{subst}
use blood_trail.Traverse.Sink.{FoundPath}
use blood_trail.Traverse.Sink.Stored.{IsPath, Holds, oriented, add_path-Holds}
use blood_trail.Traverse.Budget.{Store, add_bytes, path_bytes}
use blood_trail.Traverse.Machine.{Verdict, open_, full, failed}
use blood_trail.Traverse.Machine.Keeps.{paid, deposit-cases}
use blood_trail.Traverse.Machine.Walks.{feed}

-- Why the paths after those that were stored were not.
abbrev pub Why : ℕ → Verdict → List FoundPath → Type 0
Why c (open_ st) rest = rest ≡ []
Why c (full st) rest = st.sink.n ≡ c
Why c (failed st) rest =
    (p : FoundPath) × (ps : List FoundPath) × (rest ≡ p ∷ ps)
    × (add_bytes (path_bytes (length p.nodes)) st.budget ≡ none)

abbrev pub store_of : Verdict → Store
store_of (open_ st) = st
store_of (full st) = st
store_of (failed st) = st

-- The sink has more paths, a prefix of those, and what is left is left for a reason.
abbrev pub Prefix : ℕ → Bool → List FoundPath → List FoundPath → Verdict → Type 0
Prefix c reversed old xs v =
    (stored : List FoundPath) × (rest : List FoundPath) × (xs ≡ stored ++ rest)
    × Holds (store_of v).sink (old ++ map (λ p. oriented (p, reversed)) stored)
    × Why c v rest

Prefix-cons :
    (c : ℕ) (reversed : Bool) (old xs : List FoundPath) (p : FoundPath) (v : Verdict)
    → Prefix c reversed (old ++ oriented (p, reversed) ∷ []) xs v
    → Prefix c reversed old (p ∷ xs) v
Prefix-cons c b old xs p v (stored, rest, e, h, w) = (
  p ∷ stored,
  rest,
  ap (λ r. p ∷ r) e,
  subst (Holds (store_of v).sink)
      (append_assoc old (oriented (p, b) ∷ []) (map (λ p. oriented (p, b)) stored)) h,
  w,
)

pub feed-Prefix :
    (c : ℕ) (reversed : Bool) (old xs : List FoundPath) (st : Store)
    → All IsPath xs
    → Holds st.sink old
    → Prefix c reversed old xs (feed c reversed xs st)
unfolding feed
feed-Prefix c b old [] st v h = ([], [], refl, subst (Holds st.sink) (sym (append-nil old)) h, refl)
feed-Prefix c b old (p ∷ xs) st v h =
    deposit-cases c b p.nodes p.kinds st
      (λ d.
        Prefix c b old (p ∷ xs)
          (elim d [ open_ st' ↦ feed c b xs st' | full st' ↦ full st' | failed st' ↦ failed st' ]))
      (λ e. ([], p ∷ xs, refl, subst (Holds st.sink) (sym (append-nil old)) h, (p, xs, refl, e)))
      (λ m e.
        let next = add_path-Holds p b st.sink old v.0 h in
        (
          λ t. (p ∷ [], xs, refl, next, ground (arith, t)),
          λ _.
              Prefix-cons c b old xs p _
                (feed-Prefix c b _ xs (paid st m p.nodes p.kinds b) v.1 next),
        ))
