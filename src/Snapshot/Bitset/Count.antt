-- ===== src/Snapshot/Bitset/Count.antt =====
-- The counter of a Bitset is the number of its set bits.
use blood_trail.Prelude.{
  ℕ, zero, suc, ◌<◌, ◌≡◌, refl, Bool, false, not, ◌&&◌, ◌||◌, ltb, ◌==◌, if◌then◌else◌, arith,
  Bool-cases, inl, inr,
}
use blood_trail.Snapshot.Bitset.{Bitset, new_bitset, set, has, room}
use blood_trail.Snapshot.Bitset.Laws.{has-set, has-new_bitset, room-set}

-- The indices below n at which a test holds.
abbrev pub tally : ℕ → (ℕ → Bool) → ℕ
tally zero f = 0
tally (suc n) f = if f n then suc (tally n f) else tally n f

tally-same : (n : ℕ) (f g : ℕ → Bool) → ((j : ℕ) → j < n → f j ≡ g j) → tally n f ≡ tally n g
tally-same zero f g e = refl
tally-same (suc n) f g e = ground (arith, e n, tally-same n f g (λ j h. e j (omega arith)))

-- One more index counts once.
tally-flip :
    (n i : ℕ) (f g : ℕ → Bool)
    → ((j : ℕ) → g j ≡ (f j || j == i))
    → f i ≡ false
    → i < n
    → tally n g ≡ suc (tally n f)
tally-flip zero i f g e h p = absurd (omega arith)
tally-flip (suc n) i f g e h p = elim (Bool-cases (n == i)) [
  | inl q ↦
      let below : tally n g ≡ tally n f = tally-same n g f (λ j r. ground (arith, e j)) in
      ground (arith, e n, below)
  | inr q ↦ ground (arith, e n, tally-flip n i f g e h)
]

-- The counter agrees with the bits.
abbrev pub IsCounted : Bitset → Type 0
IsCounted b = b.count ≡ tally (room b) (has b)

tally-none : (n : ℕ) (f : ℕ → Bool) → ((j : ℕ) → f j ≡ false) → tally n f ≡ 0
tally-none zero f e = refl
tally-none (suc n) f e = ground (arith, e n, tally-none n f e)

pub new_bitset-IsCounted : (n : ℕ) → IsCounted (new_bitset n)
unfolding new_bitset
new_bitset-IsCounted n =
    omega
      (arith, tally-none (room (new_bitset n)) (has (new_bitset n)) (λ j. (has-new_bitset n j).1))

count-set :
    (b : Bitset) (i : ℕ)
    → (set b i).count ≡ (if ltb i (room b) && not (has b i) then suc b.count else b.count)
unfolding set has
count-set b i = ground arith

-- `Set` keeps the counter equal to the number of set bits, in range or not, set before or not.
pub set-IsCounted : (b : Bitset) (i : ℕ) → IsCounted b → IsCounted (set b i)
set-IsCounted b i h = elim (Bool-cases (ltb i (room b) && not (has b i))) [
  | inl new ↦ ground (
    arith,
    count-set b i,
    room-set b i,
    tally-flip (room b) i (has b) (has (set b i)) (λ j. ground (arith, has-set b i j)),
  )
  | inr old ↦ ground (
    arith,
    count-set b i,
    room-set b i,
    tally-same (room b) (has (set b i)) (has b) (λ j r. ground (arith, has-set b i j)),
  )
]
