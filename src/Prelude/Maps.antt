-- ===== src/Prelude/Maps.antt =====
-- Go's maps, as association lists with one entry for each key, and its strings, as lists of bytes.
use Prim.Native.Nat.{ℕ}
use mathlib.Core.Path.{◌≡◌, refl, sym}
use mathlib.Core.Logic.{inl, inr}
use mathlib.Core.Bool.{Bool, true, false, ◌&&◌, ◌||◌}
use mathlib.Core.Option.{Option, none, some}
use mathlib.Core.List.{List, [], ◌∷◌, map}
use native.Mathlib.Omega.{arith}
use blood_trail.Prelude.Tests.{◌==◌, if◌then◌else◌, Bool-cases}

abbrev pub Str : Type 0
Str = List ℕ

-- Keys that can be compared.
pub record Key {ℓ} (K : Type ℓ) : Type ℓ where
  pub same : K → K → Bool
  pub same_self : (k : K) → same k k ≡ true
  pub same_eq : (a b : K) → same a b ≡ true → a ≡ b

unfoldable pub same_str : Str → Str → Bool
same_str [] [] = true
same_str (a ∷ xs) (b ∷ ys) = (a == b) && same_str xs ys
same_str _ _ = false

pub same_str_self : (xs : Str) → same_str xs xs ≡ true
unfolding same_str
same_str_self [] = refl
same_str_self (x ∷ xs) = ground (arith, same_str_self xs)

pub same_str_eq : (xs ys : Str) → same_str xs ys ≡ true → xs ≡ ys
unfolding same_str
same_str_eq [] [] h = refl
same_str_eq (a ∷ xs) (b ∷ ys) h = ground (arith, same_str_eq xs ys)
same_str_eq [] (b ∷ ys) h = cc
same_str_eq (a ∷ xs) [] h = cc

pub same_nat : (a b : ℕ) → (a == b) ≡ true → a ≡ b
same_nat a b h = ground arith

pub same_nat_self : (a : ℕ) → (a == a) ≡ true
same_nat_self a = ground arith

instance abbrev pub nat_key : Key ℕ
nat_key = record { same = ◌==◌; same_self = same_nat_self; same_eq = same_nat }

instance abbrev pub str_key : Key Str
str_key = record { same = same_str; same_self = same_str_self; same_eq = same_str_eq }

module _ {ℓ κ} {K : Type ℓ} {V : Type κ} ⦃key : Key K⦄ where
  abbrev pub lookup : K → List (K × V) → Option V
  lookup k [] = none
  lookup k ((k', v) ∷ m) = if key.same k k' then some v else lookup k m

  -- `m[k] = v`
  abbrev pub store : K → V → List (K × V) → List (K × V)
  store k v [] = (k, v) ∷ []
  store k v ((k', v') ∷ m) = if key.same k k' then (k', v) ∷ m else (k', v') ∷ store k v m

module _ {ℓ} {K : Type ℓ} ⦃key : Key K⦄ where
  abbrev pub holds : K → List K → Bool
  holds k [] = false
  holds k (x ∷ xs) = key.same k x || holds k xs

  -- `s[k] = struct{}{}`
  abbrev pub add : K → List K → List K
  add k [] = k ∷ []
  add k (x ∷ xs) = if key.same k x then x ∷ xs else x ∷ add k xs

  abbrev pub Distinct : List K → Type 0
  Distinct [] = Unit {0}
  Distinct (x ∷ xs) = (holds x xs ≡ false) × Distinct xs

module _ {ℓ κ} {K : Type ℓ} {V : Type κ} ⦃key : Key K⦄ where
  pub lookup-store_self : (k : K) (v : V) (m : List (K × V)) → lookup k (store k v m) ≡ some v
  lookup-store_self k v [] = rw (key.same_self k)
  lookup-store_self k v ((k', v') ∷ m) = elim (Bool-cases (key.same k k')) [
    | inl e ↦ rw (e, e)
    | inr e ↦ rw (e, e, lookup-store_self k v m)
  ]

  pub lookup-store_ne :
      (k k' : K) (v : V) (m : List (K × V))
      → key.same k k' ≡ false
      → lookup k (store k' v m) ≡ lookup k m
  lookup-store_ne k k' v [] h = rw h
  lookup-store_ne k k' v ((j, w) ∷ m) h = elim (Bool-cases (key.same k' j)) [
    | inl e ↦ let same : key.same k j ≡ false = rw (sym (key.same_eq k' j e)) h in rw (e, same)
    | inr e ↦ rw (e, lookup-store_ne k k' v m h)
  ]

or_again : (a b : Bool) → (a || b) ≡ (a || (a || b))
or_again true b = refl
or_again false b = refl

pub or_swap : (a b c : Bool) → (a || (b || c)) ≡ (b || (a || c))
or_swap true true c = refl
or_swap true false c = refl
or_swap false b c = refl

module _ {ℓ} {K : Type ℓ} ⦃key : Key K⦄ where
  pub holds-add : (j k : K) (xs : List K) → holds j (add k xs) ≡ (key.same j k || holds j xs)
  holds-add j k [] = refl
  holds-add j k (x ∷ xs) = elim (Bool-cases (key.same k x)) [
    | inl e ↦ let eq = key.same_eq k x e in rw (e, eq) (or_again (key.same j x) (holds j xs))
    | inr e ↦ rw (e, holds-add j k xs) (or_swap (key.same j x) (key.same j k) (holds j xs))
  ]

  same_sym : (a b : K) → key.same a b ≡ true → key.same b a ≡ true
  same_sym a b h = rw (key.same_eq a b h) (key.same_self b)

  stays_apart :
      (x k : K) (xs : List K)
      → key.same k x ≡ false
      → holds x xs ≡ false
      → holds x (add k xs) ≡ false
  stays_apart x k xs e h = elim (Bool-cases (key.same x k)) [
    | inl t ↦ cc (same_sym x k t)
    | inr t ↦ rw (holds-add x k xs, t) h
  ]

  pub add-Distinct : (k : K) (xs : List K) → Distinct xs → Distinct (add k xs)
  add-Distinct k [] d = (refl, tt)
  add-Distinct k (x ∷ xs) d = elim (Bool-cases (key.same k x)) [
    | inl e ↦ rw e d
    | inr e ↦ rw e (stays_apart x k xs e d.0, add-Distinct k xs d.1)
  ]

module _ {ℓ κ} {K : Type ℓ} {V : Type κ} ⦃key : Key K⦄ where
  unfoldable pub keys : List (K × V) → List K
  keys m = map (λ e. e.0) m

  pub keys-store : (k : K) (v : V) (m : List (K × V)) → keys (store k v m) ≡ add k (keys m)
  unfolding keys
  keys-store k v [] = refl
  keys-store k v ((k', v') ∷ m) = elim (Bool-cases (key.same k k')) [
    | inl e ↦ rw e
    | inr e ↦ rw (e, keys-store k v m)
  ]

module _ {A B C : Type 0} ⦃a : Key A⦄ ⦃b : Key B⦄ ⦃c : Key C⦄ where
  abbrev pub same_triple : A × B × C → A × B × C → Bool
  same_triple (x, y, z) (x', y', z') = a.same x x' && b.same y y' && c.same z z'

  pub same_triple_self : (p : A × B × C) → same_triple p p ≡ true
  same_triple_self (x, y, z) = rw (a.same_self x, b.same_self y, c.same_self z)

  pub same_triple_eq : (p q : A × B × C) → same_triple p q ≡ true → p ≡ q
  same_triple_eq (x, y, z) (x', y', z') h =
      let first : a.same x x' ≡ true = ground arith in
      let second : b.same y y' ≡ true = ground arith in
      let third : c.same z z' ≡ true = ground arith in
      rw (a.same_eq x x' first, b.same_eq y y' second, c.same_eq z z' third)

  instance unfoldable pub triple_key : Key (A × B × C)
  triple_key = record { same = same_triple; same_self = same_triple_self; same_eq = same_triple_eq }
