-- ===== src/Changes/Keys.antt =====
-- internal/engine/changes.go, kindsKey: the keys of two lists of kinds differ where their sorted names
-- do, for names that are not empty and hold no separator.
use blood_trail.Prelude.{
  ℕ, ◌≡◌, ◌≢◌, refl, sym, ap, ◌∙◌, false, ◌||◌, List, [], ◌∷◌, ◌++◌, map, Option, Str, holds,
  append_assoc, nat_key, arith, inl, inr, Bool-cases,
}
use blood_trail.Changes.{kind_name, kinds_key, join, bar, comma, str_le, sort_strings, insert_str}

-- A name that is not empty and has neither a comma nor a bar.
abbrev pub IsName : Str → Type 0
IsName n = (n ≢ []) × (holds 44 n ≡ false) × (holds 124 n ≡ false)

abbrev pub AllNames : List Str → Type 0
AllNames [] = Unit {0}
AllNames (n ∷ ns) = IsName n × AllNames ns

insert_str-AllNames :
    (x : Str) (xs : List Str) → IsName x → AllNames xs → AllNames (insert_str x xs)
unfolding insert_str
insert_str-AllNames x [] n h = (n, tt)
insert_str-AllNames x (y ∷ ys) n h = elim (Bool-cases (str_le x y)) [
  | inl e ↦ rw e (n, h)
  | inr e ↦ rw e (h.0, insert_str-AllNames x ys n h.1)
]

pub sort_strings-AllNames : (xs : List Str) → AllNames xs → AllNames (sort_strings xs)
unfolding sort_strings
sort_strings-AllNames [] h = tt
sort_strings-AllNames (x ∷ xs) h =
    insert_str-AllNames x (sort_strings xs) h.0 (sort_strings-AllNames xs h.1)

holds-append : (b : ℕ) (xs ys : Str) → holds b (xs ++ ys) ≡ (holds b xs || holds b ys)
holds-append b [] ys = refl
holds-append b (x ∷ xs) ys = ground (arith, holds-append b xs ys)

-- What stands before the first separator, and what after it.
split_at :
    (sep : ℕ) (s s' t t' : Str)
    → holds sep s ≡ false
    → holds sep s' ≡ false
    → s ++ sep ∷ t ≡ s' ++ sep ∷ t'
    → (s ≡ s') × (t ≡ t')
split_at sep [] [] t t' h h' e = (refl, cc)
split_at sep [] (c ∷ s') t t' h h' e = let same : sep ≡ c = cc in absurd (ground arith)
split_at sep (c ∷ s) [] t t' h h' e = let same : c ≡ sep = cc in absurd (ground arith)
split_at sep (c ∷ s) (c' ∷ s') t t' h h' e =
    let head : c ≡ c' = cc in
    let tail : s ++ sep ∷ t ≡ s' ++ sep ∷ t' = cc in
    let rest = split_at sep s s' t t' (ground arith) (ground arith) tail in
    (rw (head, rest.0) refl, rest.1)

no_separator : (sep : ℕ) (s t x : Str) → holds sep x ≡ false → x ≢ s ++ sep ∷ t
no_separator sep s t x h e =
    let there : holds sep x ≡ (holds sep s || holds sep (sep ∷ t)) =
      ap (holds sep) e ∙ holds-append sep s (sep ∷ t) in
    ground arith

some_text : (s t : Str) (c : ℕ) → [] ≢ s ++ c ∷ t
some_text [] t c e = cc
some_text (d ∷ s) t c e = cc

join-more : (x y : Str) (ys : List Str) → join (x ∷ y ∷ ys) ≡ x ++ 44 ∷ join (y ∷ ys)
join-more x y ys = append_assoc x comma (join (y ∷ ys))

join-injective : (xs ys : List Str) → AllNames xs → AllNames ys → join xs ≡ join ys → xs ≡ ys
join-injective [] [] h g e = refl
join-injective [] (y ∷ []) h g e = absurd (g.0.0 (sym e))
join-injective [] (y ∷ z ∷ zs) h g e =
    absurd (some_text y (join (z ∷ zs)) 44 (e ∙ join-more y z zs))
join-injective (x ∷ []) [] h g e = absurd (h.0.0 e)
join-injective (x ∷ []) (y ∷ []) h g e = ap (λ s. s ∷ []) e
join-injective (x ∷ []) (y ∷ z ∷ zs) h g e =
    absurd (no_separator 44 y (join (z ∷ zs)) x h.0.1 (e ∙ join-more y z zs))
join-injective (x ∷ w ∷ ws) [] h g e =
    absurd (some_text x (join (w ∷ ws)) 44 (sym e ∙ join-more x w ws))
join-injective (x ∷ w ∷ ws) (y ∷ []) h g e =
    absurd (no_separator 44 x (join (w ∷ ws)) y g.0.1 (sym e ∙ join-more x w ws))
join-injective (x ∷ w ∷ ws) (y ∷ z ∷ zs) h g e =
    let cut =
      split_at 44 x y (join (w ∷ ws)) (join (z ∷ zs)) h.0.1 g.0.1
        (sym (join-more x w ws) ∙ e ∙ join-more y z zs) in
    let rest = join-injective (w ∷ ws) (z ∷ zs) h.1 g.1 cut.1 in rw (cut.0, rest) refl

join-bar : (xs : List Str) → AllNames xs → holds 124 (join xs) ≡ false
join-bar [] h = refl
join-bar (x ∷ []) h = h.0.2
join-bar (x ∷ y ∷ ys) h =
    ap (holds 124) (join-more x y ys)
    ∙ holds-append 124 x (44 ∷ join (y ∷ ys))
    ∙ rw (h.0.2, join-bar (y ∷ ys) h.1) refl

module _ {K : Type 0} (string : K → Str) where
  -- The names of kinds, sorted: what a list of kinds is identified by.
  abbrev pub names : List (Option K) → List Str
  names ks = sort_strings (map (kind_name string) ks)

  kinds_key-join : (ks : List (Option K)) → kinds_key string ks ≡ join (names ks)
  unfolding kinds_key sort_strings
  kinds_key-join [] = refl
  kinds_key-join (k ∷ ks) = refl

  pair_key-join :
      (i x : List (Option K))
      → kinds_key string i ++ bar ++ kinds_key string x ≡ join (names i) ++ 124 ∷ join (names x)
  pair_key-join i x =
      append_assoc (kinds_key string i) bar (kinds_key string x)
      ∙ rw (kinds_key-join i, kinds_key-join x) refl

  -- The key of a pair of lists of kinds determines the sorted names of both.
  pub pair_key-injective :
      (i x i' x' : List (Option K))
      → AllNames (names i)
      → AllNames (names x)
      → AllNames (names i')
      → AllNames (names x')
      → kinds_key string i ++ bar ++ kinds_key string x
        ≡ kinds_key string i' ++ bar ++ kinds_key string x'
      → (names i ≡ names i') × (names x ≡ names x')
  pair_key-injective i x i' x' a b a' b' e =
      let same = sym (pair_key-join i x) ∙ e ∙ pair_key-join i' x' in
      let cut = split_at 124 _ _ _ _ (join-bar (names i) a) (join-bar (names i') a') same in
      (
        join-injective (names i) (names i') a a' cut.0,
        join-injective (names x) (names x') b b' cut.1,
      )

  pub pair_key-names :
      (i x i' x' : List (Option K))
      → names i ≡ names i'
      → names x ≡ names x'
      → kinds_key string i ++ bar ++ kinds_key string x
        ≡ kinds_key string i' ++ bar ++ kinds_key string x'
  pair_key-names i x i' x' e e' =
      pair_key-join i x
      ∙ ap (λ n. join n ++ 124 ∷ join (names x)) e
      ∙ ap (λ n. join (names i') ++ 124 ∷ join n) e'
      ∙ sym (pair_key-join i' x')
