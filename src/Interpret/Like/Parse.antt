-- ===== src/Interpret/Like/Parse.antt =====
-- parseLikePattern against a reading of the pattern byte by byte.
use blood_trail.Prelude.{
  ◌≢◌, ◌⊎◌, ◌≡◌, ◌↔◌, refl, sym, ap, ◌∙◌, ℕ, Bool, true, false, List, [], ◌∷◌, ◌++◌, append-nil,
  append_assoc, Option, none, some, ◌==◌, arith, Str, inl, inr, Bool-cases,
}
use mathlib.Core.Path.{subst}
use mathlib.Core.Option.{some-injective}
use blood_trail.Interpret.Like.{
  backslash, LikePart, literal, wildcard, is_wildcard, flush, parse_from, parse_like_pattern,
}

-- What a byte of a pattern stands for.
pub data Item : Type 0 where
  text wild : ℕ → Item

-- The readings of a pattern: a backslash (92) makes text of the byte after it, any other
-- percent sign (37) or underscore (95) is a wildcard, and any byte but these three is text.
pub data Reads : Str → List Item → Type 0 where
  done : Reads [] []
  escaped : (c : ℕ) (cs : Str) (is : List Item) → Reads cs is → Reads (92 ∷ c ∷ cs) (text c ∷ is)
  plain :
      (c : ℕ) (cs : Str) (is : List Item)
      → c ≢ 92
      → c ≢ 37
      → c ≢ 95
      → Reads cs is
      → Reads (c ∷ cs) (text c ∷ is)
  special :
      (c : ℕ) (cs : Str) (is : List Item)
      → (c ≡ 37) ⊎ (c ≡ 95)
      → Reads cs is
      → Reads (c ∷ cs) (wild c ∷ is)

abbrev push : ℕ → List LikePart → List LikePart
push c [] = literal (c ∷ []) ∷ []
push c (literal run ∷ ps) = literal (c ∷ run) ∷ ps
push c (wildcard w ∷ ps) = literal (c ∷ []) ∷ wildcard w ∷ ps

-- The parts of a reading: every longest run of text is one literal.
abbrev pub group : List Item → List LikePart
group [] = []
group (text c ∷ is) = push c (group is)
group (wild c ∷ is) = wildcard c ∷ group is

-- Parts with a run of text before them.
abbrev prepend : Str → List LikePart → List LikePart
prepend [] ps = ps
prepend (c ∷ run) ps = push c (prepend run ps)

prepend-push :
    (run : Str) (c : ℕ) (ps : List LikePart) → prepend run (push c ps) ≡ prepend (run ++ c ∷ []) ps
prepend-push [] c ps = refl
prepend-push (d ∷ run) c ps = ap (push d) (prepend-push run c ps)

prepend-nil : (c : ℕ) (run : Str) → prepend (c ∷ run) [] ≡ literal (c ∷ run) ∷ []
prepend-nil c [] = refl
prepend-nil c (d ∷ run) = rw (prepend-nil d run) refl

prepend-wildcard :
    (c : ℕ) (run : Str) (w : ℕ) (ps : List LikePart)
    → prepend (c ∷ run) (wildcard w ∷ ps) ≡ literal (c ∷ run) ∷ wildcard w ∷ ps
prepend-wildcard c [] w ps = refl
prepend-wildcard c (d ∷ run) w ps = rw (prepend-wildcard d run w ps) refl

flush-prepend : (parts : List LikePart) (run : Str) → flush parts run ≡ parts ++ prepend run []
flush-prepend parts [] = sym (append-nil parts)
flush-prepend parts (c ∷ run) = ap (λ t. parts ++ t) (sym (prepend-nil c run))

flush-wildcard :
    (parts : List LikePart) (run : Str) (w : ℕ) (ps : List LikePart)
    → (flush parts run ++ wildcard w ∷ []) ++ ps ≡ parts ++ prepend run (wildcard w ∷ ps)
flush-wildcard parts [] w ps = append_assoc parts (wildcard w ∷ []) ps
flush-wildcard parts (c ∷ run) w ps =
    append_assoc (parts ++ literal (c ∷ run) ∷ []) (wildcard w ∷ []) ps
    ∙ append_assoc parts (literal (c ∷ run) ∷ []) (wildcard w ∷ ps)
    ∙ ap (λ t. parts ++ t) (sym (prepend-wildcard c run w ps))

not_escape : (c : ℕ) → is_wildcard c ≡ true → (c == backslash) ≡ false
not_escape c h = ground arith

reading_parsed :
    {p : Str} {is : List Item} (parts : List LikePart) (run : Str)
    → Reads p is
    → parse_from false parts run p ≡ some (parts ++ prepend run (group is))
unfolding parse_from
reading_parsed parts run done = ap some (flush-prepend parts run)
reading_parsed parts run (escaped c cs is r) =
    reading_parsed parts (run ++ c ∷ []) r
    ∙ ap (λ t. some (parts ++ t)) (sym (prepend-push run c (group is)))
reading_parsed parts run (plain c cs is b p u r) =
    let e : (c == backslash) ≡ false = ground arith in
    let w : is_wildcard c ≡ false = ground arith in
    rw (e, parse_from, w)
      (reading_parsed parts (run ++ c ∷ []) r
        ∙ ap (λ t. some (parts ++ t)) (sym (prepend-push run c (group is))))
reading_parsed parts run (special c cs is v r) =
    let w : is_wildcard c ≡ true = ground arith in
    rw (not_escape c w, parse_from, w)
      (reading_parsed (flush parts run ++ wildcard c ∷ []) [] r
        ∙ ap some (flush-wildcard parts run c (group is)))

-- The escape that the loop has taken already.
abbrev pending : Bool → Str → Str
pending true p = backslash ∷ p
pending false p = p

-- Whatever is parsed has a reading.
parsed_reading :
    (waits : Bool) (parts : List LikePart) (run p : Str) (ps : List LikePart)
    → parse_from waits parts run p ≡ some ps
    → (is : List Item) × Reads (pending waits p) is
unfolding parse_from
parsed_reading true parts run [] ps h = cc
parsed_reading true parts run (c ∷ cs) ps h =
    let (is, r) = parsed_reading false parts (run ++ c ∷ []) cs ps h in
    (text c ∷ is, escaped c cs is r)
parsed_reading false parts run [] ps h = ([], done)
parsed_reading false parts run (c ∷ cs) ps h = elim (Bool-cases (c == backslash)) [
  | inl e ↦
      let same : c ≡ backslash = ground arith in
      let tail : parse_from true parts run cs ≡ some ps = ground arith in
      subst (λ d. (is : List Item) × Reads (d ∷ cs) is) (sym same)
        (parsed_reading true parts run cs ps tail)
  | inr e ↦ elim (Bool-cases (is_wildcard c)) [
    | inl w ↦
        let tail : parse_from false (flush parts run ++ wildcard c ∷ []) [] cs ≡ some ps =
          ground arith in
        let (is, r) = parsed_reading false (flush parts run ++ wildcard c ∷ []) [] cs ps tail in
        (wild c ∷ is, special c cs is (ground arith) r)
    | inr w ↦
        let tail : parse_from false parts (run ++ c ∷ []) cs ≡ some ps = ground arith in
        let (is, r) = parsed_reading false parts (run ++ c ∷ []) cs ps tail in
        (text c ∷ is, plain c cs is (ground arith) (ground arith) (ground arith) r)
  ]
]

-- A pattern parses to some parts exactly when it has a reading with those parts: a backslash makes
-- text of the byte after it, any other `%` or `_` is a wildcard, any other byte is text, and every
-- longest run of text is one literal. It is refused exactly when it has no reading.
pub parse_like_pattern-Reads :
    (p : Str)
    → ((ps : List LikePart)
        → (parse_like_pattern p ≡ some ps) ↔ ((is : List Item) × Reads p is × (group is ≡ ps)))
      × ((parse_like_pattern p ≡ none) ↔ (¬ ((is : List Item) × Reads p is)))
unfolding parse_like_pattern
parse_like_pattern-Reads p = (
  λ ps. (
    λ h.
        let (is, r) = parsed_reading false [] [] p ps h in
        (is, r, some-injective _ _ (sym (reading_parsed [] [] r) ∙ h)),
    λ (is, r, e). reading_parsed [] [] r ∙ ap some e,
  ),
  (
    λ h (is, r). let parsed = reading_parsed [] [] r in cc,
    λ h. unparsed (parse_from false [] [] p) refl h,
  ),
)
  where
    unparsed :
        (o : Option (List LikePart))
        → parse_from false [] [] p ≡ o
        → ¬ ((is : List Item) × Reads p is)
        → parse_from false [] [] p ≡ none
    unparsed none e h = e
    unparsed (some ps) e h = absurd (h (parsed_reading false [] [] p ps e))
