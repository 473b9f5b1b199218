-- ===== src/Interpret/Like/Longest.antt =====
-- The longest run of text of a pattern.
use blood_trail.Prelude.{
  ◌≤◌, ◌≡◌, ◌⊎◌, inl, inr, refl, List, [], ◌∷◌, ltb, if◌then◌else◌, length, arith, Str, Bool-cases,
}
use blood_trail.Interpret.Like.{LikePart, literal, wildcard, longest_from, longest_literal}

-- The run is text of the parts.
pub data IsRun (run : Str) : List LikePart → Type 0 where
  here : {s : Str} {parts : List LikePart} → run ≡ s → IsRun run (literal s ∷ parts)
  later : {p : LikePart} {parts : List LikePart} → IsRun run parts → IsRun run (p ∷ parts)

longest_from-le :
    (best : Str) (parts : List LikePart) → length best ≤ length (longest_from best parts)
longest_from-le best [] = omega arith
longest_from-le best (wildcard c ∷ parts) = longest_from-le best parts
longest_from-le best (literal run ∷ parts) = elim (Bool-cases (ltb (length best) (length run))) [
  | inl e ↦ rw e (ground (arith, longest_from-le run parts))
  | inr e ↦ rw e (longest_from-le best parts)
]

longest_from-bound :
    (best run : Str) (parts : List LikePart)
    → IsRun run parts
    → length run ≤ length (longest_from best parts)
longest_from-bound best run [] r = elim r [ ]
longest_from-bound best run (literal s ∷ parts) (here h) =
    elim (Bool-cases (ltb (length best) (length s))) [
      | inl e ↦ rw (e, h) (longest_from-le s parts)
      | inr e ↦ rw (e, h) (ground (arith, longest_from-le best parts))
    ]
longest_from-bound best run (wildcard c ∷ parts) (later r) = longest_from-bound best run parts r
longest_from-bound best run (literal s ∷ parts) (later r) =
    longest_from-bound (if ltb (length best) (length s) then s else best) run parts r

longest_from-IsRun :
    (best : Str) (parts : List LikePart)
    → (longest_from best parts ≡ best) ⊎ IsRun (longest_from best parts) parts
longest_from-IsRun best [] = inl refl
longest_from-IsRun best (wildcard c ∷ parts) = elim (longest_from-IsRun best parts) [
  | inl e ↦ inl e
  | inr r ↦ inr (later r)
]
longest_from-IsRun best (literal s ∷ parts) = elim (Bool-cases (ltb (length best) (length s))) [
  | inl e ↦
      rw e (elim (longest_from-IsRun s parts) [ inl f ↦ inr (here f) | inr r ↦ inr (later r) ])
  | inr e ↦ rw e (elim (longest_from-IsRun best parts) [ inl f ↦ inl f | inr r ↦ inr (later r) ])
]

-- The longest literal is as long as any run of text of the pattern, and is one of them or empty.
pub longest_literal-bound :
    (parts : List LikePart)
    → ((run : Str) → IsRun run parts → length run ≤ length (longest_literal parts))
      × ((longest_literal parts ≡ []) ⊎ IsRun (longest_literal parts) parts)
unfolding longest_literal
longest_literal-bound parts =
    (λ run r. longest_from-bound [] run parts r, longest_from-IsRun [] parts)
