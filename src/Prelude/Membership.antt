-- ===== src/Prelude/Membership.antt =====
-- Membership in a list of any type, as a type: where the item stands.
use mathlib.Core.Path.{◌≡◌, refl, ap}
use mathlib.Core.Logic.{◌⊎◌, inl, inr}
use mathlib.Core.List.{List, [], ◌∷◌, ◌++◌, map, reverse, reverse_aux}

pub data Among {ℓ} {A : Type ℓ} (x : A) : List A → Type ℓ where
  at_head : {y : A} {ys : List A} → x ≡ y → Among x (y ∷ ys)
  in_tail : {y : A} {ys : List A} → Among x ys → Among x (y ∷ ys)

module _ {ℓ} {A : Type ℓ} where
  pub Among-head : (x y : A) (ys : List A) → Among x (y ∷ ys) → (x ≡ y) ⊎ Among x ys
  Among-head x y ys (at_head e) = inl e
  Among-head x y ys (in_tail m) = inr m

  pub Among-append_left : (x : A) (xs ys : List A) → Among x xs → Among x (xs ++ ys)
  Among-append_left x [] ys m = elim m [ ]
  Among-append_left x (y ∷ xs) ys (at_head e) = at_head e
  Among-append_left x (y ∷ xs) ys (in_tail m) = in_tail (Among-append_left x xs ys m)

  pub Among-append_right : (x : A) (xs ys : List A) → Among x ys → Among x (xs ++ ys)
  Among-append_right x [] ys m = m
  Among-append_right x (y ∷ xs) ys m = in_tail (Among-append_right x xs ys m)

  pub append-Among : (x : A) (xs ys : List A) → Among x (xs ++ ys) → Among x xs ⊎ Among x ys
  append-Among x [] ys m = inr m
  append-Among x (y ∷ xs) ys (at_head e) = inl (at_head e)
  append-Among x (y ∷ xs) ys (in_tail m) = elim (append-Among x xs ys m) [
    | inl h ↦ inl (in_tail h)
    | inr h ↦ inr h
  ]

  pub Among-reverse_aux :
      (x : A) (xs ys : List A) → Among x xs ⊎ Among x ys → Among x (reverse_aux xs ys)
  Among-reverse_aux x [] ys (inl m) = elim m [ ]
  Among-reverse_aux x [] ys (inr m) = m
  Among-reverse_aux x (y ∷ xs) ys (inl (at_head e)) =
      Among-reverse_aux x xs (y ∷ ys) (inr (at_head e))
  Among-reverse_aux x (y ∷ xs) ys (inl (in_tail m)) = Among-reverse_aux x xs (y ∷ ys) (inl m)
  Among-reverse_aux x (y ∷ xs) ys (inr m) = Among-reverse_aux x xs (y ∷ ys) (inr (in_tail m))

  pub reverse_aux-Among :
      (x : A) (xs ys : List A) → Among x (reverse_aux xs ys) → Among x xs ⊎ Among x ys
  reverse_aux-Among x [] ys m = inr m
  reverse_aux-Among x (y ∷ xs) ys m = elim (reverse_aux-Among x xs (y ∷ ys) m) [
    | inl h ↦ inl (in_tail h)
    | inr h ↦ elim (Among-head x y ys h) [ inl e ↦ inl (at_head e) | inr t ↦ inr t ]
  ]

  pub Among-reverse : (x : A) (xs : List A) → Among x xs → Among x (reverse xs)
  Among-reverse x xs m = Among-reverse_aux x xs [] (inl m)

  pub reverse-Among : (x : A) (xs : List A) → Among x (reverse xs) → Among x xs
  reverse-Among x xs m = elim (reverse_aux-Among x xs [] m) [ inl h ↦ h | inr h ↦ elim h [ ] ]

module _ {ℓ κ} {A : Type ℓ} {B : Type κ} (f : A → B) where
  pub Among-map : (x : A) (xs : List A) → Among x xs → Among (f x) (map f xs)
  Among-map x [] m = elim m [ ]
  Among-map x (y ∷ xs) (at_head e) = at_head (ap f e)
  Among-map x (y ∷ xs) (in_tail m) = in_tail (Among-map x xs m)

  pub map-Among : (z : B) (xs : List A) → Among z (map f xs) → (x : A) × Among x xs × (z ≡ f x)
  map-Among z [] m = elim m [ ]
  map-Among z (y ∷ xs) (at_head e) = (y, at_head refl, e)
  map-Among z (y ∷ xs) (in_tail m) = let (x, a, e) = map-Among z xs m in (x, in_tail a, e)
