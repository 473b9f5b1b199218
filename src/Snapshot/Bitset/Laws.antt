-- ===== src/Snapshot/Bitset/Laws.antt =====
-- Reading back the bits of a Bitset.
use blood_trail.Prelude.{
  ℕ, zero, suc, ◌+◌, ◌/◌, ◌%◌, ◌≤◌, ◌<◌, ◌≡◌, refl, Bool, false, ◌&&◌, ◌||◌, ltb, ◌==◌, arith,
  get_or, set as set_word, bit_or, test_bit, bit_and-pow, test_bit-or, pow-pos, get_or-set_self,
  get_or-set_ne, length-set, get_or-replicate, length-replicate,
}
use blood_trail.Snapshot.Bitset.{Bitset, bit_mask, new_bitset, set, has, room}

-- A bit of the words, read past the end as clear.
abbrev pub bit_at : Bitset → ℕ → Bool
bit_at b i = test_bit (get_or b.words (i / 64) 0) (i % 64)

pub has-bit_at : (b : Bitset) (i : ℕ) → has b i ≡ (ltb i (room b) && bit_at b i)
unfolding has
has-bit_at b i = ground (arith, bit_and-pow (get_or b.words (i / 64) 0) (i % 64), pow-pos (i % 64))

-- The words after a bit in range is set.
abbrev pub marked : Bitset → ℕ → Bitset
marked b i = record b {
  words = set_word b.words (i / 64) (bit_or (get_or b.words (i / 64) 0) (bit_mask i));
}

bit_at-marked : (b : Bitset) (i j : ℕ) → i < room b → bit_at (marked b i) j ≡ (bit_at b j || j == i)
bit_at-marked b i j h = ground (
  arith,
  get_or-set_self b.words (i / 64) (bit_or (get_or b.words (i / 64) 0) (bit_mask i)) 0,
  get_or-set_ne b.words (i / 64) (j / 64) (bit_or (get_or b.words (i / 64) 0) (bit_mask i)) 0,
  test_bit-or (get_or b.words (i / 64) 0) (i % 64) (j % 64),
)

pub room-set : (b : Bitset) (i : ℕ) → room (set b i) ≡ room b
unfolding set
room-set b i =
    ground (arith, length-set b.words (i / 64) (bit_or (get_or b.words (i / 64) 0) (bit_mask i)))

-- After `Set`, a bit is set when it was, or when it is the one that was set and lies in range.
pub has-set : (b : Bitset) (i j : ℕ) → has (set b i) j ≡ (has b j || (j == i && ltb i (room b)))
unfolding set
has-set b i j =
    ground (arith, has-bit_at (set b i) j, has-bit_at b j, room-set b i, bit_at-marked b i j)

zero-clear : (b : ℕ) → test_bit 0 b ≡ false
zero-clear zero = refl
zero-clear (suc b) = zero-clear b

new_bitset-clear : (n i : ℕ) → bit_at (new_bitset n) i ≡ false
unfolding new_bitset
new_bitset-clear n i =
    let e = get_or-replicate {A = ℕ} ((n + 63) / 64) (i / 64) 0 in rw e (zero-clear (i % 64))

-- A new set has room for its n bits, and all of them are clear.
pub has-new_bitset : (n i : ℕ) → (n ≤ room (new_bitset n)) × (has (new_bitset n) i ≡ false)
unfolding new_bitset
has-new_bitset n i = (
  omega (arith, length-replicate {A = ℕ} ((n + 63) / 64) 0),
  ground (arith, has-bit_at (new_bitset n) i, new_bitset-clear n i),
)
