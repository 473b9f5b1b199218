-- ===== src/Snapshot/EdgeKinds/Merge.antt =====
-- The endpoints of several kinds are the union of those of each, strictly ascending.
use blood_trail.Prelude.{
  ℕ, zero, suc, ◌+◌, ◌≤◌, ◌≡◌, refl, sym, Bool, true, false, ◌||◌, List, [], ◌∷◌, ltb, ◌==◌, holds,
  nat_key, length, arith, SortedFrom, inl, inr, Bool-cases,
}
use blood_trail.Snapshot.EdgeKinds.{dedupe_after, dedupe_sorted, merge_rounds, merge_sorted_ids}

-- Strictly ascending, from b on.
abbrev pub RisesFrom : ℕ → List ℕ → Type 0
RisesFrom b [] = Unit {0}
RisesFrom b (x ∷ xs) = (b ≤ x) × RisesFrom (suc x) xs

rises_lower : (b c : ℕ) (xs : List ℕ) → b ≤ c → RisesFrom c xs → RisesFrom b xs
rises_lower b c [] p v = tt
rises_lower b c (x ∷ xs) p v = (omega (arith, v.0), v.1)

merge_rounds-RisesFrom :
    (n b : ℕ) (xs ys : List ℕ)
    → RisesFrom b xs
    → RisesFrom b ys
    → RisesFrom b (merge_rounds n xs ys)
unfolding merge_rounds
merge_rounds-RisesFrom n b [] ys v w = w
merge_rounds-RisesFrom n b (x ∷ xs) [] v w = v
merge_rounds-RisesFrom zero b (x ∷ xs) (y ∷ ys) v w = tt
merge_rounds-RisesFrom (suc n) b (x ∷ xs) (y ∷ ys) (p, v) (q, w) = elim (Bool-cases (ltb x y)) [
  | inl e ↦
      rw (e, merge_rounds) (p, merge_rounds-RisesFrom n (suc x) xs (y ∷ ys) v (ground arith, w))
  | inr e ↦ elim (Bool-cases (ltb y x)) [
    | inl f ↦
        rw (e, merge_rounds, f)
          (q, merge_rounds-RisesFrom n (suc y) (x ∷ xs) ys (ground arith, v) w)
    | inr f ↦
        rw (e, merge_rounds, f)
          (
            p,
            merge_rounds-RisesFrom n (suc x) xs ys v
                (rises_lower (suc x) (suc y) ys (ground arith) w),
          )
  ]
]

or_none : (a : Bool) → a ≡ (a || false)
or_none true = refl
or_none false = refl

holds-merge_rounds :
    (n z : ℕ) (xs ys : List ℕ)
    → length xs + length ys ≤ n
    → holds z (merge_rounds n xs ys) ≡ (holds z xs || holds z ys)
unfolding merge_rounds
holds-merge_rounds n z [] ys p = refl
holds-merge_rounds n z (x ∷ xs) [] p = or_none (holds z (x ∷ xs))
holds-merge_rounds zero z (x ∷ xs) (y ∷ ys) p = absurd (omega arith)
holds-merge_rounds (suc n) z (x ∷ xs) (y ∷ ys) p = elim (Bool-cases (ltb x y)) [
  | inl e ↦ rw (e, merge_rounds, holds-merge_rounds n z xs (y ∷ ys) (omega arith)) (ground arith)
  | inr e ↦ elim (Bool-cases (ltb y x)) [
    | inl f ↦
        rw (e, merge_rounds, f, holds-merge_rounds n z (x ∷ xs) ys (omega arith)) (ground arith)
    | inr f ↦
        let same : x ≡ y = ground arith in
        rw (e, merge_rounds, f, holds-merge_rounds n z xs ys (omega arith)) (ground arith)
  ]
]

-- The merge of two strictly ascending lists is their union, strictly ascending.
pub merge_sorted_ids-union :
    (xs ys : List ℕ)
    → RisesFrom 0 xs
    → RisesFrom 0 ys
    → RisesFrom 0 (merge_sorted_ids xs ys)
      × ((z : ℕ) → holds z (merge_sorted_ids xs ys) ≡ (holds z xs || holds z ys))
unfolding merge_sorted_ids
merge_sorted_ids-union xs [] v w = (v, λ z. or_none (holds z xs))
merge_sorted_ids-union [] (y ∷ ys) v w = (w, λ z. refl)
merge_sorted_ids-union (x ∷ xs) (y ∷ ys) v w = (
  merge_rounds-RisesFrom (suc (length xs) + suc (length ys)) 0 (x ∷ xs) (y ∷ ys) v w,
  λ z. holds-merge_rounds (suc (length xs) + suc (length ys)) z (x ∷ xs) (y ∷ ys) (omega arith),
)

dedupe_after-RisesFrom :
    (b : ℕ) (xs : List ℕ) → SortedFrom b xs → RisesFrom (suc b) (dedupe_after b xs)
dedupe_after-RisesFrom b [] v = tt
dedupe_after-RisesFrom b (x ∷ xs) (p, v) = elim (Bool-cases (x == b)) [
  | inl e ↦ let same : x ≡ b = ground arith in rw e (dedupe_after-RisesFrom b xs (rw (sym same) v))
  | inr e ↦ rw e (ground arith, dedupe_after-RisesFrom x xs v)
]

holds-dedupe_after :
    (b z : ℕ) (xs : List ℕ) → (z == b || holds z (dedupe_after b xs)) ≡ (z == b || holds z xs)
holds-dedupe_after b z [] = refl
holds-dedupe_after b z (x ∷ xs) = elim (Bool-cases (x == b)) [
  | inl e ↦ rw e (ground (arith, holds-dedupe_after b z xs))
  | inr e ↦ rw e (ground (arith, holds-dedupe_after x z xs))
]

-- Deduplication of an ascending list keeps the same ids, strictly ascending.
pub dedupe_sorted-distinct :
    (xs : List ℕ)
    → SortedFrom 0 xs
    → RisesFrom 0 (dedupe_sorted xs) × ((z : ℕ) → holds z (dedupe_sorted xs) ≡ holds z xs)
unfolding dedupe_sorted
dedupe_sorted-distinct [] v = (tt, λ z. refl)
dedupe_sorted-distinct (x ∷ xs) (p, v) =
    ((p, dedupe_after-RisesFrom x xs v), λ z. holds-dedupe_after x z xs)
