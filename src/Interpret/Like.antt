-- ===== src/Interpret/Like.antt =====
-- internal/engine/interpret/value.go: LIKE patterns. A pattern is its bytes.
pub mod Parse
pub mod Longest
mod Examples
use blood_trail.Prelude.{
  ℕ, Bool, true, false, ◌&&◌, ◌||◌, List, [], ◌∷◌, ◌++◌, Option, none, some, ltb, ◌==◌,
  if◌then◌else◌, length, Str,
}

abbrev pub backslash : ℕ
backslash = 92

abbrev pub percent : ℕ
percent = 37

abbrev pub underscore : ℕ
underscore = 95

-- A run of text, or the byte of a wildcard.
pub data LikePart : Type 0 where
  literal : Str → LikePart
  wildcard : ℕ → LikePart

abbrev pub is_wildcard : ℕ → Bool
is_wildcard c = c == percent || c == underscore

-- The parts so far and the run of text that is not among them yet.
abbrev pub flush : List LikePart → Str → List LikePart
flush parts [] = parts
flush parts (c ∷ run) = parts ++ literal (c ∷ run) ∷ []

-- The loop over the bytes; `escaped` is whether the byte before was an escape. none is the error of
-- a pattern that ends there.
unfoldable pub parse_from : Bool → List LikePart → Str → Str → Option (List LikePart)
parse_from true parts run [] = none
parse_from true parts run (c ∷ cs) = parse_from false parts (run ++ c ∷ []) cs
parse_from false parts run [] = some (flush parts run)
parse_from false parts run (c ∷ cs) = elim (c == backslash) [
  | true ↦ parse_from true parts run cs
  | false ↦ elim (is_wildcard c) [
    | true ↦ parse_from false (flush parts run ++ wildcard c ∷ []) [] cs
    | false ↦ parse_from false parts (run ++ c ∷ []) cs
  ]
]

unfoldable pub parse_like_pattern : Str → Option (List LikePart)
unfolding parse_from
parse_like_pattern pattern_bytes = parse_from false [] [] pattern_bytes

unfoldable pub leading_literal : List LikePart → Option Str
leading_literal (literal run ∷ parts) = some run
leading_literal _ = none

unfoldable pub trailing_literal : List LikePart → Option Str
trailing_literal [] = none
trailing_literal (literal run ∷ []) = some run
trailing_literal (wildcard c ∷ []) = none
trailing_literal (p ∷ q ∷ parts) = trailing_literal (q ∷ parts)

abbrev pub longest_from : Str → List LikePart → Str
longest_from best [] = best
longest_from best (wildcard c ∷ parts) = longest_from best parts
longest_from best (literal run ∷ parts) =
    longest_from (if ltb (length best) (length run) then run else best) parts

-- The empty string is the answer false.
unfoldable pub longest_literal : List LikePart → Str
longest_literal parts = longest_from [] parts

pub data StringOp : Type 0 where
  op_starts_with op_ends_with op_contains : StringOp

unfoldable pub like_pattern_for : StringOp → Str → Str
like_pattern_for op_starts_with needle = needle ++ percent ∷ []
like_pattern_for op_ends_with needle = percent ∷ needle
like_pattern_for op_contains needle = percent ∷ needle ++ percent ∷ []
