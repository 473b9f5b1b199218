-- ===== src/Snapshot/Bitset/Examples.antt =====
-- The theorems on bit vectors at small sets.
use blood_trail.Prelude.{
  ◌/◌, ◌%◌, ◌≤◌, ◌≡◌, refl, true, false, ◌&&◌, ◌||◌, ltb, ◌==◌, arith, test_bit, get_or, pos,
  negsuc, none, some, [], ◌∷◌,
}
use blood_trail.Snapshot.Bitset.{Bitset, new_bitset, set, has, room}
use blood_trail.Snapshot.Bitset.Laws.{has-set, has-new_bitset}
use blood_trail.Snapshot.Bitset.Count.{IsCounted, set-IsCounted, new_bitset-IsCounted}
use blood_trail.Snapshot.Bitset.Mask.{
  KindMask, new_kind_mask, set_all, set_all-test_bit, new_kind_mask-IsSized, within, same_kind,
}
use blood_trail.Snapshot.Bitset.Mask

abbrev two_words : Bitset
two_words = new_bitset 70

two_words_runs :
    (has (set (set two_words 64) 64) 64 ≡ true)
    × ((set (set two_words 64) 64).count ≡ 1)
    × (has (set two_words 64) 63 ≡ false)
unfolding new_bitset set has
two_words_runs = (refl, refl, refl)

has-set_example :
    has (set two_words 64) 64 ≡ (has two_words 64 || (64 == 64 && ltb 64 (room two_words)))
has-set_example = has-set two_words 64 64

has-new_bitset_example : (70 ≤ room (new_bitset 70)) × (has (new_bitset 70) 9 ≡ false)
has-new_bitset_example = has-new_bitset 70 9

set-IsCounted_example : IsCounted (set two_words 64)
set-IsCounted_example = set-IsCounted two_words 64 (new_bitset-IsCounted 70)

abbrev mask_70 : KindMask
mask_70 = record { words = 0 ∷ 0 ∷ []; max = pos 70 }

masks_made :
    (new_kind_mask (pos 70) ≡ some mask_70)
    × (new_kind_mask (negsuc 126) ≡ some (record { words = []; max = negsuc 126 }))
    × (new_kind_mask (negsuc 127) ≡ none)
unfolding new_kind_mask
masks_made = (refl, refl, refl)

has-set_kind_example :
    (Mask.has (Mask.set mask_70 (pos 65)) (negsuc 4)
      ≡ (Mask.has mask_70 (negsuc 4) || (same_kind (negsuc 4) (pos 65) && within mask_70 (pos 65))))
    × (Mask.has mask_70 (negsuc 4) ≡ true → within mask_70 (negsuc 4) ≡ true)
has-set_kind_example =
    Mask.has-set_kind mask_70 (pos 65) (negsuc 4)
      (new_kind_mask-IsSized (pos 70) mask_70 masks_made.0)

set_all-test_bit_example :
    test_bit (get_or (set_all mask_70).words (71 / 64) 0) (71 % 64) ≡ within mask_70 (pos 71)
set_all-test_bit_example =
    set_all-test_bit mask_70 71 (new_kind_mask-IsSized (pos 70) mask_70 masks_made.0) (omega arith)
