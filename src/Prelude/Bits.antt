-- ===== src/Prelude/Bits.antt =====
-- Single bits of a machine word: `w | 1<<b` sets bit b, and `w & 1<<b` is zero exactly when that
-- bit is clear.
use Prim.Native.Nat.{
  ℕ, zero, suc, ◌+◌, ◌*◌, ◌/◌, ◌%◌, ◌^◌, ◌-◌, ◌≤◌, ◌<◌, min, max, bit_and, bit_or, digits,
  bit_and-bitwise, bit_or-bitwise,
}
use mathlib.Core.Path.{◌≡◌, refl, ap, sym, ◌∙◌}
use mathlib.Core.Bool.{Bool, true, false, ◌||◌, ◌&&◌}
use mathlib.Core.Logic.{inl, inr}
use native.Mathlib.Nat.{pow-suc}
use native.Mathlib.Omega.{arith}
use blood_trail.Prelude.Tests.{◌==◌, ltb, if◌then◌else◌, Bool-cases}

-- A bitwise operation works on the digits of its first operand, lowest first, and `rest` says what
-- it makes of the second where the first has none left.
module _ (rest : ℕ → ℕ) (op : ℕ → ℕ → ℕ) where
  digits_done : (rounds b : ℕ) → digits rest op rounds 0 b ≡ rest b
  digits_done zero b = refl
  digits_done (suc rounds) b = refl

  abbrev push_digit : ℕ → ℕ → ℕ → ℕ
  push_digit a b high = high * 2 + op (a % 2) (b % 2)

  -- More rounds than the operand has digits change nothing.
  digits_settle : (r s a b : ℕ) → a ≤ r → a ≤ s → digits rest op r a b ≡ digits rest op s a b
  digits_settle r s zero b p q = digits_done r b ∙ sym (digits_done s b)
  digits_settle zero s (suc a) b p q = absurd (omega arith)
  digits_settle (suc r) zero (suc a) b p q = absurd (omega arith)
  digits_settle (suc r) (suc s) (suc a) b p q =
      ap (push_digit (suc a) b) (digits_settle r s (suc a / 2) (b / 2) (omega arith) (omega arith))

  -- The lowest digit of an operand that has one.
  digits_low :
      (a b : ℕ)
      → digits rest op (suc a) (suc a) b
        ≡ push_digit (suc a) b (digits rest op (suc a / 2) (suc a / 2) (b / 2))
  digits_low a b =
      ap (push_digit (suc a) b)
        (digits_settle a (suc a / 2) (suc a / 2) (b / 2) (omega arith) (omega arith))

and_low : (a b : ℕ) → bit_and a b ≡ bit_and (a / 2) (b / 2) * 2 + min (a % 2) (b % 2)
and_low zero b = omega (arith, bit_and-bitwise 0 b, bit_and-bitwise 0 (b / 2))
and_low (suc a) b = omega (
  arith,
  digits_low (λ _. 0) min a b,
  bit_and-bitwise (suc a / 2) (b / 2),
  bit_and-bitwise (suc a) b,
)

or_low : (a b : ℕ) → bit_or a b ≡ bit_or (a / 2) (b / 2) * 2 + max (a % 2) (b % 2)
or_low zero b = omega (arith, bit_or-bitwise 0 b, bit_or-bitwise 0 (b / 2))
or_low (suc a) b = omega (
  arith,
  digits_low (λ b. b) max a b,
  bit_or-bitwise (suc a / 2) (b / 2),
  bit_or-bitwise (suc a) b,
)

-- `w & 0` and `w | 0`, on as many rounds as w has.
with_zero : (rounds w : ℕ) → w ≤ rounds → (bit_and w 0 ≡ 0) × (bit_or w 0 ≡ w)
with_zero rounds zero h = (refl, refl)
with_zero zero (suc w) h = absurd (omega arith)
with_zero (suc rounds) (suc w) h =
    let ih = with_zero rounds (suc w / 2) (omega arith) in
    (omega (arith, and_low (suc w) 0), omega (arith, or_low (suc w) 0))

-- Bit b of a word.
abbrev pub test_bit : ℕ → ℕ → Bool
test_bit w zero = w % 2 == 1
test_bit w (suc b) = test_bit (w / 2) b

half_pow : (b : ℕ) → (2 ^ suc b / 2 ≡ 2 ^ b) × (2 ^ suc b % 2 ≡ 0)
half_pow b = (omega (arith, pow-suc 2 b), omega (arith, pow-suc 2 b))

pub bit_and-pow : (w b : ℕ) → bit_and w (2 ^ b) ≡ (if test_bit w b then 2 ^ b else 0)
bit_and-pow w zero = ground (arith, and_low w 1, with_zero (w / 2) (w / 2) (omega arith))
bit_and-pow w (suc b) =
    ground (arith, and_low w (2 ^ suc b), half_pow b, bit_and-pow (w / 2) b, pow-suc 2 b)

pub test_bit-or : (w b c : ℕ) → test_bit (bit_or w (2 ^ b)) c ≡ (test_bit w c || c == b)
test_bit-or w zero zero = ground (arith, or_low w 1, with_zero (w / 2) (w / 2) (omega arith))
test_bit-or w zero (suc c) =
    let z = with_zero (w / 2) (w / 2) (omega arith) in
    let e : bit_or w 1 / 2 ≡ w / 2 = omega (arith, or_low w 1) in ground (arith, e)
test_bit-or w (suc b) zero = ground (arith, or_low w (2 ^ suc b), half_pow b)
test_bit-or w (suc b) (suc c) =
    let p = half_pow b in
    let e : bit_or w (2 ^ suc b) / 2 ≡ bit_or (w / 2) (2 ^ b) =
      ground (arith, or_low w (2 ^ suc b), p) in
    ground (arith, e, test_bit-or (w / 2) b c)

-- A power of two is not zero.
pub pow-pos : (b : ℕ) → 0 < 2 ^ b
pow-pos zero = omega arith
pow-pos (suc b) = omega (arith, pow-suc 2 b, pow-pos b)

-- Two tests agree at each number below a bound, found by evaluation.
abbrev agree_below : (ℕ → Bool) → (ℕ → Bool) → ℕ → Bool
agree_below f g zero = true
agree_below f g (suc n) = agree_below f g n && (if f n then g n else (if g n then false else true))

agree_at : (f g : ℕ → Bool) (n b : ℕ) → agree_below f g n ≡ true → b < n → f b ≡ g b
agree_at f g zero b t h = absurd (omega arith)
agree_at f g (suc n) b t h = elim (Bool-cases (b == n)) [
  | inl e ↦ (let e' : b ≡ n = ground arith in rw e' (ground arith))
  | inr e ↦ agree_at f g n b (ground arith) (ground arith)
]

abbrev pub all_ones : ℕ
all_ones = 2 ^ 64 - 1

pub test_bit-all_ones : (b : ℕ) → b < 64 → test_bit all_ones b ≡ true
test_bit-all_ones b h = agree_at (test_bit all_ones) (λ _. true) 64 b refl h

abbrev low_mask_agrees : ℕ → Bool
low_mask_agrees n = agree_below (test_bit (bit_and all_ones (2 ^ n - 1))) (λ b. ltb b n) 64

-- The mask of the n lowest bits.
pub test_bit-low : (n b : ℕ) → n < 65 → b < 64 → test_bit (bit_and all_ones (2 ^ n - 1)) b ≡ ltb b n
test_bit-low n b p q =
    agree_at (test_bit (bit_and all_ones (2 ^ n - 1))) (λ b. ltb b n) 64 b
      (agree_at low_mask_agrees (λ _. true) 65 n refl p) q
