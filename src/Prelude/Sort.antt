-- ===== src/Prelude/Sort.antt =====
-- Go's `sort.Slice` on unsigned integers under `<`: equal numbers cannot be told apart, so the
-- result is the ascending list with the same items, as often.
use Prim.Native.Nat.{ℕ, suc, ◌≤◌, ◌<◌}
use mathlib.Core.Path.{◌≡◌, refl}
use mathlib.Core.List.{List, [], ◌∷◌}
use native.Mathlib.Omega.{arith}
use blood_trail.Prelude.Tests.{leb, ◌==◌, if◌then◌else◌, Bool-cases}
use mathlib.Core.Logic.{inl, inr}
use blood_trail.Prelude.Lists.{All}

abbrev pub count : ℕ → List ℕ → ℕ
count x [] = 0
count x (y ∷ ys) = if x == y then suc (count x ys) else count x ys

insert : ℕ → List ℕ → List ℕ
insert x [] = x ∷ []
insert x (y ∷ ys) = if leb x y then x ∷ y ∷ ys else y ∷ insert x ys

unfoldable pub sort : List ℕ → List ℕ
unfolding insert
sort [] = []
sort (x ∷ xs) = insert x (sort xs)

-- Ascending, and nothing below `b`.
abbrev pub SortedFrom : ℕ → List ℕ → Type 0
SortedFrom b [] = Unit {0}
SortedFrom b (x ∷ xs) = (b ≤ x) × SortedFrom x xs

count-insert : (z x : ℕ) (ys : List ℕ) → count z (insert x ys) ≡ count z (x ∷ ys)
unfolding insert
count-insert z x [] = refl
count-insert z x (y ∷ ys) = ground (arith, count-insert z x ys)

pub count-sort : (z : ℕ) (xs : List ℕ) → count z (sort xs) ≡ count z xs
unfolding sort
count-sort z [] = refl
count-sort z (x ∷ xs) = ground (arith, count-insert z x (sort xs), count-sort z xs)

insert-SortedFrom : (b x : ℕ) (ys : List ℕ) → b ≤ x → SortedFrom b ys → SortedFrom b (insert x ys)
unfolding insert
insert-SortedFrom b x [] h s = (h, tt)
insert-SortedFrom b x (y ∷ ys) h s = ground (arith, insert-SortedFrom y x ys)

pub sort-SortedFrom : (xs : List ℕ) → SortedFrom 0 (sort xs)
unfolding sort
sort-SortedFrom [] = tt
sort-SortedFrom (x ∷ xs) = insert-SortedFrom 0 x (sort xs) (omega arith) (sort-SortedFrom xs)

pub count-below : (b z : ℕ) (xs : List ℕ) → SortedFrom b xs → z < b → count z xs ≡ 0
count-below b z [] s h = refl
count-below b z (x ∷ xs) s h = ground (arith, count-below x z xs)

module _ (P : ℕ → Type 0) where
  insert-All : (x : ℕ) (ys : List ℕ) → P x → All P ys → All P (insert x ys)
  unfolding insert
  insert-All x [] p a = (p, tt)
  insert-All x (y ∷ ys) p a = elim (Bool-cases (leb x y)) [
    | inl e ↦ rw (e, insert) (p, a)
    | inr e ↦ rw (e, insert) (a.0, insert-All x ys p a.1)
  ]

  pub sort-All : (xs : List ℕ) → All P xs → All P (sort xs)
  unfolding sort
  sort-All [] a = tt
  sort-All (x ∷ xs) a = insert-All x (sort xs) a.0 (sort-All xs a.1)
