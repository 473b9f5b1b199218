-- ===== src/Snapshot/Store/Partitions.antt =====
-- What the single checks of validate.go show when they pass: offsets that partition an array, ids
-- that ascend, and indices in range.
use blood_trail.Prelude.{
  ℕ, zero, suc, ◌+◌, ◌%◌, ◌^◌, ◌≤◌, ◌<◌, ◌≡◌, refl, Bool, true, false, List, [], ◌∷◌, Option, none,
  some, ◌==◌, arith, length, get_or, not,
}
use blood_trail.Snapshot.Store.Validate.{
  Corrupt, ◌or_else◌, fail_if, backwards, last_from, validate_offsets64, validate_offsets32,
  not_ascending, any_from,
}

-- A check that passes in a sequence that passes.
pub or_else-none : (a b : Option Corrupt) → (a or_else b) ≡ none → (a ≡ none) × (b ≡ none)
or_else-none none b h = (refl, h)
or_else-none (some e) b h = cc

pub fail_if-none : (t : Bool) (e : Corrupt) → fail_if t e ≡ none → t ≡ false
fail_if-none true e h = cc
fail_if-none false e h = refl

-- Offsets that partition `total` slots: they start at 0, never fall, and end at `total`.
pub record Partitions (offsets : List ℕ) (nodes total : ℕ) : Type 0 where
  pub size : length offsets ≡ suc nodes
  pub starts : get_or offsets 0 0 ≡ 0
  pub ends : get_or offsets nodes 0 ≡ total
  pub climbs : (i j : ℕ) → i ≤ j → j ≤ nodes → get_or offsets i 0 ≤ get_or offsets j 0

climbs_from :
    (o : ℕ) (os : List ℕ)
    → backwards o os ≡ false
    → (i j : ℕ) → i ≤ j
    → j ≤ length os
    → get_or (o ∷ os) i 0 ≤ get_or (o ∷ os) j 0
climbs_from o os h zero zero p q = omega arith
climbs_from o [] h i (suc j) p q = absurd (omega arith)
climbs_from o (o' ∷ os) h zero (suc j) p q =
    ground (arith, climbs_from o' os (ground arith) 0 j (omega arith) (omega arith))
climbs_from o (o' ∷ os) h (suc i) (suc j) p q =
    climbs_from o' os (ground arith) i j (omega arith) (omega arith)
climbs_from o os h (suc i) zero p q = absurd (omega arith)

last_from-get_or : (o : ℕ) (os : List ℕ) → get_or (o ∷ os) (length os) 0 ≡ last_from o os
last_from-get_or o [] = refl
last_from-get_or o (p ∷ os) = last_from-get_or p os

pub offsets64_sound :
    (offsets : List ℕ) (nodes indexed : ℕ)
    → length offsets ≡ suc nodes
    → validate_offsets64 offsets indexed ≡ none
    → Partitions offsets nodes indexed
unfolding validate_offsets64
offsets64_sound [] nodes indexed n h = cc
offsets64_sound (o ∷ os) nodes indexed n h = record {
  size = n;
  starts = ground arith;
  ends = let e : nodes ≡ length os = omega arith in ground (arith, last_from-get_or o os);
  climbs = λ i j p q. climbs_from o os (ground arith) i j p (omega arith);
}

pub offsets32_sound :
    (offsets : List ℕ) (nodes indexed : ℕ)
    → length offsets ≡ suc nodes
    → validate_offsets32 offsets indexed ≡ none
    → Partitions offsets nodes (indexed % 2 ^ 32)
unfolding validate_offsets32
offsets32_sound [] nodes indexed n h = cc
offsets32_sound (o ∷ os) nodes indexed n h = record {
  size = n;
  starts = ground arith;
  ends = let e : nodes ≡ length os = omega arith in ground (arith, last_from-get_or o os);
  climbs = λ i j p q. climbs_from o os (ground arith) i j p (omega arith);
}

ascending_next : (x : ℕ) (xs : List ℕ) → not_ascending (x ∷ xs) ≡ false → not_ascending xs ≡ false
ascending_next x [] h = refl
ascending_next x (y ∷ ys) h = ground arith

head_below :
    (x : ℕ) (xs : List ℕ) (j : ℕ)
    → not_ascending (x ∷ xs) ≡ false
    → j < length xs
    → x < get_or xs j 0
head_below x [] j h p = absurd (omega arith)
head_below x (y ∷ ys) zero h p = ground arith
head_below x (y ∷ ys) (suc j) h p =
    ground (arith, head_below y ys j (ascending_next x (y ∷ ys) h) (omega arith))

pub ascending_sound :
    (xs : List ℕ)
    → not_ascending xs ≡ false
    → (i j : ℕ) → i < j
    → j < length xs
    → get_or xs i 0 < get_or xs j 0
ascending_sound [] h i j p q = absurd (omega arith)
ascending_sound (x ∷ xs) h i zero p q = absurd (omega arith)
ascending_sound (x ∷ xs) h zero (suc j) p q = head_below x xs j h (omega arith)
ascending_sound (x ∷ xs) h (suc i) (suc j) p q =
    ascending_sound xs (ascending_next x xs h) i j (omega arith) (omega arith)

pub below_sound :
    (n : ℕ) (xs : List ℕ) → any_from n xs ≡ false → (i : ℕ) → i < length xs → get_or xs i 0 < n
below_sound n [] h i p = absurd (omega arith)
below_sound n (x ∷ xs) h zero p = ground arith
below_sound n (x ∷ xs) h (suc i) p = below_sound n xs (ground arith) i (omega arith)

pub equal_of : (a b : ℕ) (e : Corrupt) → fail_if (not (a == b)) e ≡ none → a ≡ b
equal_of a b e h = ground arith

pub length_of : (a b : ℕ) (e : Corrupt) → fail_if (not (a == b + 1)) e ≡ none → a ≡ suc b
length_of a b e h = ground arith
