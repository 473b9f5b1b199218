-- ===== src/Snapshot/Bitset.antt =====
-- internal/engine/snapshot/bitset.go, Bitset: a bit vector in 64-bit words, with the number of its
-- set bits. Words are numbers below 2 ^ 64; a shift count is below 64, so no shift overflows.
pub mod Laws
pub mod Count
pub mod Mask
mod Examples
use blood_trail.Prelude.{
  ℕ, suc, ◌+◌, ◌*◌, ◌/◌, ◌%◌, ◌^◌, Bool, true, false, not, List, leb, ◌==◌, if◌then◌else◌, length,
  get_or, set as set_word, replicate, bit_and, bit_or,
}

pub record Bitset : Type 0 where
  pub words : List ℕ
  pub count : ℕ

-- `uint64(1) << bitIdx`
abbrev pub bit_mask : ℕ → ℕ
bit_mask i = 2 ^ (i % 64)

pub new_bitset : ℕ → Bitset
new_bitset n = record { words = replicate ((n + 63) / 64) 0; count = 0 }

pub set : Bitset → ℕ → Bitset
set b i = if leb (length b.words) (i / 64) then b else record {
  words = set_word b.words (i / 64) (bit_or (get_or b.words (i / 64) 0) (bit_mask i));
  count = if bit_and (get_or b.words (i / 64) 0) (bit_mask i) == 0 then suc b.count else b.count;
}

pub has : Bitset → ℕ → Bool
has b i =
    if leb (length b.words) (i / 64)
    then false
    else not (bit_and (get_or b.words (i / 64) 0) (bit_mask i) == 0)

-- The number of bits that the words have room for.
abbrev pub room : Bitset → ℕ
room b = 64 * length b.words
