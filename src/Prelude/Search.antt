-- ===== src/Prelude/Search.antt =====
-- Go's `sort.Search`: the least index in [0, n) at which a test that stays true once it is true
-- holds, or n.
use Prim.Native.Nat.{ℕ, zero, suc, ◌+◌, ◌-◌, ◌/◌, ◌≤◌, ◌<◌}
use mathlib.Core.Path.{◌≡◌}
use mathlib.Core.Logic.{inl, inr}
use mathlib.Core.Bool.{Bool, true, false}
use native.Mathlib.Omega.{arith}
use blood_trail.Prelude.Tests.{ltb, Bool-cases}

-- `for i < j { h := (i + j) / 2; if !f(h) { i = h + 1 } else { j = h } }`, and then i. Each round
-- shortens [i, j), so n rounds are enough.
search_from : ℕ → (ℕ → Bool) → ℕ → ℕ → ℕ
search_from zero f i j = i
search_from (suc n) f i j = elim (ltb i j) [
  | false ↦ i
  | true ↦ elim (f ((i + j) / 2)) [
    | false ↦ search_from n f ((i + j) / 2 + 1) j
    | true ↦ search_from n f i ((i + j) / 2)
  ]
]

unfoldable pub search : ℕ → (ℕ → Bool) → ℕ
unfolding search_from
search n f = search_from n f 0 n

-- The test never turns false again below n.
abbrev pub Ascends : ℕ → (ℕ → Bool) → Type 0
Ascends n f = (k m : ℕ) → k ≤ m → m < n → f k ≡ true → f m ≡ true

abbrev pub FirstAt : ℕ → (ℕ → Bool) → ℕ → Type 0
FirstAt n f i = (i ≤ n) × ((k : ℕ) → k < i → f k ≡ false) × ((k : ℕ) → i ≤ k → k < n → f k ≡ true)

stays_false :
    (n : ℕ) (f : ℕ → Bool) → Ascends n f → (m k : ℕ) → m < n → f m ≡ false → k < m + 1 → f k ≡ false
stays_false n f up m k h e p = elim (Bool-cases (f k)) [
  | inl t ↦ cc (up k m (omega arith) h t)
  | inr t ↦ t
]

search_from-first :
    (n : ℕ) (f : ℕ → Bool)
    → Ascends n f
    → (fuel i j : ℕ) → i ≤ j
    → j ≤ n
    → j - i ≤ fuel
    → ((k : ℕ) → k < i → f k ≡ false)
    → ((k : ℕ) → j ≤ k → k < n → f k ≡ true)
    → FirstAt n f (search_from fuel f i j)
unfolding search_from
search_from-first n f up zero i j p q r low high =
    (omega arith, low, λ k a b. high k (omega arith) b)
search_from-first n f up (suc fuel) i j p q r low high = elim (Bool-cases (ltb i j)) [
  | inr e ↦ rw (e, search_from) (ground arith, low, λ k a b. high k (ground arith) b)
  | inl e ↦ elim (Bool-cases (f ((i + j) / 2))) [
    | inr e' ↦
        rw (e, search_from, e')
          (search_from-first n f up fuel ((i + j) / 2 + 1) j (ground arith) q (ground arith)
            (λ k a. stays_false n f up ((i + j) / 2) k (ground arith) e' a) high)
    | inl e' ↦
        rw (e, search_from, e')
          (search_from-first n f up fuel i ((i + j) / 2) (ground arith) (ground arith)
            (ground arith) low (λ k a b. up ((i + j) / 2) k a b e'))
  ]
]

pub search-first : (n : ℕ) (f : ℕ → Bool) → Ascends n f → FirstAt n f (search n f)
unfolding search
search-first n f up =
    search_from-first n f up n 0 n (omega arith) (omega arith) (omega arith) (λ k h. elim h [ ])
      (λ k a b. absurd (omega arith))

pub search-le : (n : ℕ) (f : ℕ → Bool) → Ascends n f → search n f ≤ n
search-le n f up = (search-first n f up).0
