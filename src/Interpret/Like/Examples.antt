-- ===== src/Interpret/Like/Examples.antt =====
-- LIKE patterns of a few bytes, and the theorems on them.
use blood_trail.Prelude.{◌≤◌, ◌≡◌, ◌↔◌, ◌⊎◌, refl, List, [], ◌∷◌, none, some, Str, length}
use blood_trail.Interpret.Like.{
  LikePart, literal, wildcard, parse_from, parse_like_pattern, leading_literal, trailing_literal,
  longest_literal, like_pattern_for, op_contains,
}
use blood_trail.Interpret.Like.Parse.{Item, Reads, group, parse_like_pattern-Reads}
use blood_trail.Interpret.Like.Longest.{IsRun, longest_literal-bound}

-- `a_%bc` with the underscore as text.
abbrev parts : List LikePart
parts = literal (97 ∷ 95 ∷ []) ∷ wildcard 37 ∷ literal (98 ∷ 99 ∷ 100 ∷ []) ∷ []

patterns_parsed :
    (parse_like_pattern (97 ∷ 92 ∷ 95 ∷ 37 ∷ 98 ∷ 99 ∷ 100 ∷ []) ≡ some parts)
    × (parse_like_pattern (97 ∷ 92 ∷ []) ≡ none)
    × (parse_like_pattern (like_pattern_for op_contains (97 ∷ []))
        ≡ some (wildcard 37 ∷ literal (97 ∷ []) ∷ wildcard 37 ∷ []))
    × (leading_literal parts ≡ some (97 ∷ 95 ∷ []))
    × (trailing_literal parts ≡ some (98 ∷ 99 ∷ 100 ∷ []))
    × (longest_literal parts ≡ 98 ∷ 99 ∷ 100 ∷ [])
unfolding parse_like_pattern parse_from leading_literal trailing_literal longest_literal
    like_pattern_for
patterns_parsed = (refl, refl, refl, refl, refl, refl)

-- `a\_%b`
abbrev escaped_pattern : Str
escaped_pattern = 97 ∷ 92 ∷ 95 ∷ 37 ∷ 98 ∷ []

parse_like_pattern-Reads_example :
    ((ps : List LikePart)
      → (parse_like_pattern escaped_pattern ≡ some ps)
        ↔ ((is : List Item) × Reads escaped_pattern is × (group is ≡ ps)))
    × ((parse_like_pattern escaped_pattern ≡ none)
        ↔ (¬ ((is : List Item) × Reads escaped_pattern is)))
parse_like_pattern-Reads_example = parse_like_pattern-Reads escaped_pattern

longest_literal-bound_example :
    ((run : Str) → IsRun run parts → length run ≤ length (longest_literal parts))
    × ((longest_literal parts ≡ []) ⊎ IsRun (longest_literal parts) parts)
longest_literal-bound_example = longest_literal-bound parts
