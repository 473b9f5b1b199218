-- ===== src/Snapshot/Bitset/Mask.antt =====
-- internal/engine/snapshot/bitset.go, KindMask: a bit vector over the kind ids 0 to `max`. A kind
-- id is an int16, so it may be negative.
use blood_trail.Prelude.{
  ℕ, zero, suc, Option, none, some, true, inl, inr, Bool-cases, ◌+◌, ◌-◌, ◌*◌, ◌/◌, ◌%◌, ◌^◌, ◌<◌,
  ◌≡◌, refl, Bool, false, not, ◌&&◌, ◌||◌, List, [], ◌∷◌, leb, ltb, ◌==◌, if◌then◌else◌, arith,
  length, get_or, set as set_word, replicate, bit_and, bit_or, map, ℤ, pos, negsuc, all_ones,
  test_bit, test_bit-or, test_bit-all_ones, test_bit-low, bit_and-pow, pow-pos, get_or-set_self,
  get_or-set_ne, length-replicate,
}
use mathlib.Core.Path.{subst}
use mathlib.Core.Option.{some-injective}
use blood_trail.Snapshot.Bitset.{bit_mask}

pub record KindMask : Type 0 where
  pub words : List ℕ
  pub max : ℤ

-- `make` panics for a negative length, which is none here. The division rounds towards zero, so a
-- `max` of -1 to -127 has no words.
unfoldable pub new_kind_mask : ℤ → Option KindMask
new_kind_mask (pos max) = some (record { words = replicate ((max + 1 + 63) / 64) 0; max = pos max })
new_kind_mask (negsuc n) = if leb 127 n then none else some (record { words = []; max = negsuc n })

-- `k > m.max`, for a k that is not negative.
abbrev pub beyond : ℤ → ℕ → Bool
beyond (pos max) k = ltb max k
beyond (negsuc n) k = true

-- `m.words[wordIdx] |= uint64(1) << bitIdx`
pub set : KindMask → ℤ → KindMask
set m (negsuc k) = m
set m (pos k) = if beyond m.max k then m else record m {
  words = set_word m.words (k / 64) (bit_or (get_or m.words (k / 64) 0) (bit_mask k));
}

pub has : KindMask → ℤ → Bool
has m (negsuc k) = false
has m (pos k) =
    if beyond m.max k then false else not (bit_and (get_or m.words (k / 64) 0) (bit_mask k) == 0)

-- `m.words[len(m.words)-1] &= mask`
abbrev and_last : List ℕ → ℕ → List ℕ
and_last [] mask = []
and_last (w ∷ []) mask = bit_and w mask ∷ []
and_last (w ∷ v ∷ ws) mask = w ∷ and_last (v ∷ ws) mask

abbrev filled : List ℕ → List ℕ
filled ws = map (λ _. all_ones) ws

-- The mask of the last word. For a negative `max`, lastWordBits is 1 or less: a shift by 1 or 0, or
-- by a count so large that it gives 0, and then 0 - 1 wraps around.
abbrev last_mask : ℤ → Option ℕ
last_mask (pos max) = if ltb (max % 64 + 1) 64 then some (2 ^ (max % 64 + 1) - 1) else none
last_mask (negsuc n) =
    let r : ℕ = suc n % 64 in if r == 0 then some 1 else if r == 1 then some 0 else some all_ones

abbrev masked : List ℕ → Option ℕ → List ℕ
masked ws none = ws
masked ws (some mask) = and_last ws mask

pub set_all : KindMask → KindMask
set_all m = record m { words = masked (filled m.words) (last_mask m.max) }

-- The words that a mask is made with.
abbrev pub word_count : ℤ → ℕ
word_count (pos max) = (max + 1 + 63) / 64
word_count (negsuc n) = 0

-- The words are just enough for the kinds up to `max`.
abbrev pub IsSized : KindMask → Type 0
IsSized m = length m.words ≡ word_count m.max

-- The kinds from 0 to `max`.
abbrev pub within : KindMask → ℤ → Bool
within m (negsuc k) = false
within m (pos k) = not (beyond m.max k)

abbrev pub same_kind : ℤ → ℤ → Bool
same_kind (pos j) (pos k) = j == k
same_kind (negsuc j) (negsuc k) = j == k
same_kind _ _ = false

has-test_bit :
    (m : KindMask) (k : ℕ)
    → has m (pos k) ≡ (not (beyond m.max k) && test_bit (get_or m.words (k / 64) 0) (k % 64))
unfolding has
has-test_bit m k =
    ground (arith, bit_and-pow (get_or m.words (k / 64) 0) (k % 64), pow-pos (k % 64))

in_room : (max : ℤ) (n k : ℕ) → n ≡ word_count max → beyond max k ≡ false → k / 64 < n
in_room (pos max) n k h e = ground arith
in_room (negsuc m) n k h e = cc

set-has_pos :
    (m : KindMask) (k j : ℕ)
    → IsSized m
    → has (set m (pos k)) (pos j) ≡ (has m (pos j) || (j == k && not (beyond m.max k)))
unfolding set
set-has_pos m k j h =
    let w = get_or m.words (k / 64) 0 in
    ground (
      arith,
      in_room m.max (length m.words) k h,
      has-test_bit (set m (pos k)) j,
      has-test_bit m j,
      get_or-set_self m.words (k / 64) (bit_or w (bit_mask k)) 0,
      get_or-set_ne m.words (k / 64) (j / 64) (bit_or w (bit_mask k)) 0,
      test_bit-or w (k % 64) (j % 64),
    )

or_nothing : (b : Bool) → b ≡ (b || false)
or_nothing true = refl
or_nothing false = refl

after_set :
    (m : KindMask) (k j : ℤ)
    → IsSized m
    → has (set m k) j ≡ (has m j || (same_kind j k && within m k))
unfolding set has
after_set m (pos k) (pos j) h = set-has_pos m k j h
after_set m (negsuc k) (pos j) h = or_nothing (has m (pos j))
after_set m (pos k) (negsuc j) h = refl
after_set m (negsuc k) (negsuc j) h = ground arith

in_range : (m : KindMask) (j : ℤ) → has m j ≡ true → within m j ≡ true
unfolding has
in_range m (pos j) h = ground arith
in_range m (negsuc j) h = cc

-- The kinds of a mask with just enough words, for any kinds, negative ones too: a kind is in it
-- after `Set` exactly when it was, or when it is the one set and from 0 to `max`; and only kinds
-- from 0 to `max` are ever in it.
pub has-set_kind :
    (m : KindMask) (k j : ℤ)
    → IsSized m
    → (has (set m k) j ≡ (has m j || (same_kind j k && within m k)))
      × (has m j ≡ true → within m j ≡ true)
has-set_kind m k j h = (after_set m k j h, in_range m j)

pub new_kind_mask-IsSized : (max : ℤ) (m : KindMask) → new_kind_mask max ≡ some m → IsSized m
unfolding new_kind_mask
new_kind_mask-IsSized (pos max) m h =
    subst IsSized (some-injective _ _ h) (length-replicate {A = ℕ} ((max + 1 + 63) / 64) 0)
new_kind_mask-IsSized (negsuc n) m h = elim (Bool-cases (leb 127 n)) [
  | inl e ↦ cc
  | inr e ↦
      let made : some (record { words = []; max = negsuc n }) ≡ some m = ground arith in
      subst IsSized (some-injective _ _ made) refl
]

length-filled : (ws : List ℕ) → length (filled ws) ≡ length ws
length-filled [] = refl
length-filled (w ∷ ws) = omega (arith, length-filled ws)

length-and_last : (ws : List ℕ) (mask : ℕ) → length (and_last ws mask) ≡ length ws
length-and_last [] mask = refl
length-and_last (w ∷ []) mask = refl
length-and_last (w ∷ v ∷ ws) mask = omega (arith, length-and_last (v ∷ ws) mask)

get_or-filled : (ws : List ℕ) (i : ℕ) → i < length ws → get_or (filled ws) i 0 ≡ all_ones
get_or-filled [] i h = absurd (omega arith)
get_or-filled (w ∷ ws) zero h = refl
get_or-filled (w ∷ ws) (suc i) h = get_or-filled ws i (omega arith)

get_or-and_last :
    (ws : List ℕ) (i mask : ℕ)
    → i < length ws
    → get_or (and_last ws mask) i 0
      ≡ (if suc i == length ws then bit_and (get_or ws i 0) mask else get_or ws i 0)
get_or-and_last [] i mask h = absurd (omega arith)
get_or-and_last (w ∷ []) zero mask h = refl
get_or-and_last (w ∷ []) (suc i) mask h = absurd (omega arith)
get_or-and_last (w ∷ v ∷ ws) zero mask h = ground arith
get_or-and_last (w ∷ v ∷ ws) (suc i) mask h = ground (arith, get_or-and_last (v ∷ ws) i mask)

last_word-test_bit :
    (max : ℤ) (ws : List ℕ) (k : ℕ)
    → length ws ≡ word_count max
    → k < 64 * length ws
    → test_bit (get_or (masked (filled ws) (last_mask max)) (k / 64) 0) (k % 64)
      ≡ not (beyond max k)
last_word-test_bit (negsuc n) ws k h p = absurd (omega arith)
last_word-test_bit (pos max) ws k h p = ground (
  arith,
  get_or-filled ws (k / 64),
  length-filled ws,
  get_or-and_last (filled ws) (k / 64) (2 ^ (max % 64 + 1) - 1),
  test_bit-all_ones (k % 64),
  test_bit-low (max % 64 + 1) (k % 64),
)

-- After `SetAll` the mask holds exactly the kinds from 0 to `max`, and no bit past `max` is set in
-- its last word.
pub set_all-test_bit :
    (m : KindMask) (k : ℕ)
    → IsSized m
    → k < 64 * length m.words
    → test_bit (get_or (set_all m).words (k / 64) 0) (k % 64) ≡ within m (pos k)
unfolding set_all
set_all-test_bit m k h p = last_word-test_bit m.max m.words k h p
