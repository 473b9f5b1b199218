-- ===== src/Traverse/Machine/Walks.antt =====
-- What the explicit-stack walk finds, by recursion on its height.
use blood_trail.Prelude.{ℕ, zero, suc, ◌+◌, ◌≡◌, Bool, List, [], ◌∷◌, ◌++◌, All, map, ℤ}
use mathlib.Core.List.{reverse}
use blood_trail.Traverse.Sink.{FoundPath}
use blood_trail.Traverse.Adjacency.{Edge}
use blood_trail.Traverse.Budget.{Store}
use blood_trail.Traverse.Machine.{Turn, skip, arrive, onward, Verdict, open_, full, failed, deposit}

abbrev pub each {ℓ} : {A : Type ℓ} → (Edge → List A) → List Edge → List A
each f [] = []
each f (e ∷ es) = f e ++ each f es

abbrev pub total : (Edge → ℕ) → List Edge → ℕ
total f [] = 0
total f (e ∷ es) = f e + total f es

-- The hops that lead from u, where the walk has `len` nodes, to an arrival, at most h of them. The
-- edges that were pushed last are taken first.
unfoldable pub walks : (ℕ → ℕ → Turn) → ℕ → ℕ → ℕ → List (List Edge)
walks turn zero len u = elim (turn u len) [ skip ↦ [] | arrive ↦ [] ∷ [] | onward es ↦ [] ]
walks turn (suc h) len u = elim (turn u len) [
  | skip ↦ []
  | arrive ↦ [] ∷ []
  | onward es ↦ each (λ e. map (λ p. e ∷ p) (walks turn h (suc len) e.0)) (reverse es)
]

-- The rounds of the loop that it takes.
unfoldable pub steps : (ℕ → ℕ → Turn) → ℕ → ℕ → ℕ → ℕ
steps turn zero len u = 1
steps turn (suc h) len u = elim (turn u len) [
  | skip ↦ 1
  | arrive ↦ 1
  | onward es ↦ 1 + total (λ e. steps turn h (suc len) e.0) (reverse es)
]

-- No walk goes on for more than h hops.
unfoldable pub Shallow : (ℕ → ℕ → Turn) → ℕ → ℕ → ℕ → Type 0
Shallow turn zero len u = (es : List Edge) → turn u len ≡ onward es → es ≡ []
Shallow turn (suc h) len u =
    (es : List Edge)
    → turn u len ≡ onward es
    → All (λ (e : Edge). Shallow turn h (suc len) e.0) (reverse es)

-- The walk, with those hops after it.
abbrev pub along : List ℕ → List ℤ → List Edge → FoundPath
along nodes kinds [] = record { nodes = nodes; kinds = kinds }
along nodes kinds (e ∷ es) = along (nodes ++ e.0 ∷ []) (kinds ++ e.1 ∷ []) es

-- Paths stored one after the other, up to the first stop.
unfoldable pub feed : ℕ → Bool → List FoundPath → Store → Verdict
feed cap reversed [] st = open_ st
feed cap reversed (p ∷ ps) st = elim (deposit cap reversed p.nodes p.kinds st) [
  | open_ st' ↦ feed cap reversed ps st'
  | full st' ↦ full st'
  | failed st' ↦ failed st'
]
