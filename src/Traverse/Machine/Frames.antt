-- ===== src/Traverse/Machine/Frames.antt =====
-- What a round of the loop does to the frames, the walk and the store.
use blood_trail.Prelude.{
  ℕ, zero, suc, ◌+◌, ◌≤◌, ◌<◌, ◌%◌, ◌^◌, ◌≡◌, refl, ap, ◌⊎◌, inl, inr, Bool, List, [], ◌∷◌, ◌++◌,
  Option, length, take, map, ℤ, arith,
}
use mathlib.Core.Path.{subst}
use mathlib.Core.List.{reverse, reverse_aux}
use blood_trail.Traverse.Sink.{FoundPath}
use blood_trail.Traverse.Adjacency.{Edge}
use blood_trail.Traverse.Budget.{Store}
use blood_trail.Traverse.Machine.{
  Turn, skip, arrive, onward, Verdict, open_, full, failed, Frame, Search, push_all, deposit,
  settle,
}
use blood_trail.Traverse.Machine.Walks.{each, total, walks, steps, along, feed}

pub Turn-cases : (t : Turn) → (t ≡ skip) ⊎ (t ≡ arrive) ⊎ ((es : List Edge) × (t ≡ onward es))
Turn-cases skip = inl refl
Turn-cases arrive = inr (inl refl)
Turn-cases (onward es) = inr (inr (es, refl))

-- A frame for each edge.
abbrev pub frames : ℕ → List Edge → List Frame → List Frame
frames d [] fs = fs
frames d ((w, k) ∷ es) fs = record { node = w; kind = k; depth = suc d } ∷ frames d es fs

pub push_all-frames :
    (d : ℕ) (es ys : List Edge) (fs : List Frame)
    → suc d < 2 ^ 16
    → push_all d es (frames d ys fs) ≡ frames d (reverse_aux es ys) fs
push_all-frames d [] ys fs h = refl
push_all-frames d ((w, k) ∷ es) ys fs h =
    let e : (d + 1) % 2 ^ 16 ≡ suc d = omega (arith, h) in
    rw (e) (push_all-frames d es ((w, k) ∷ ys) fs h)

-- Where the next frame is one hop below, the walk begins with P and the kinds with Q.
pub record Below (P : List ℕ) (Q : List ℤ) (s : Search) : Type 0 where
  pub walked : take (length P) s.walk ≡ P
  pub kinds_walked : take (length Q) s.walk_kinds ≡ Q

pub settle-feed :
    (c : ℕ) (r : Bool) (xs ys : List FoundPath) (st : Store) (k : Store → Option (Store × Bool))
    → settle (feed c r (xs ++ ys) st) k ≡ settle (feed c r xs st) (λ s. settle (feed c r ys s) k)
unfolding feed settle
settle-feed c r [] ys st k = refl
settle-feed c r (p ∷ xs) ys st k =
    elim (deposit c r p.nodes p.kinds st)
      as (λ v.
        settle
          (elim v [
            | open_ st' ↦ feed c r (xs ++ ys) st'
            | full st' ↦ full st'
            | failed st' ↦ failed st'
          ])
          k
        ≡ settle
            (elim v [ open_ st' ↦ feed c r xs st' | full st' ↦ full st' | failed st' ↦ failed st' ])
            (λ s. settle (feed c r ys s) k)) [
              | open_ st' ↦ settle-feed c r xs ys st' k
              | full st' ↦ refl
              | failed st' ↦ refl
            ]

pub settle-feed_one :
    (c : ℕ) (r : Bool) (p : FoundPath) (st : Store) (k : Store → Option (Store × Bool))
    → settle (feed c r (p ∷ []) st) k ≡ settle (deposit c r p.nodes p.kinds st) k
unfolding feed settle
settle-feed_one c r p st k =
    elim (deposit c r p.nodes p.kinds st)
      as (λ v.
        settle (elim v [ open_ st' ↦ open_ st' | full st' ↦ full st' | failed st' ↦ failed st' ]) k
        ≡ settle v k) [ open_ st' ↦ refl | full st' ↦ refl | failed st' ↦ refl ]

pub settle-ext :
    (v : Verdict) (k k' : Store → Option (Store × Bool))
    → ((st : Store) → k st ≡ k' st)
    → settle v k ≡ settle v k'
unfolding settle
settle-ext (open_ st) k k' h = h st
settle-ext (full st) k k' h = refl
settle-ext (failed st) k k' h = refl

-- The recursion at a node that is no more than itself.
pub leaf_walks :
    (turn : ℕ → ℕ → Turn) (h len u : ℕ)
    → ((turn u len ≡ skip) → (walks turn h len u ≡ []) × (steps turn h len u ≡ 1))
      × ((turn u len ≡ arrive) → (walks turn h len u ≡ [] ∷ []) × (steps turn h len u ≡ 1))
unfolding walks steps
leaf_walks turn zero len u = (λ e. (rw (e, walks) refl, refl), λ e. (rw (e, walks) refl, refl))
leaf_walks turn (suc h) len u =
    (λ e. (rw (e, walks) refl, rw (e, steps) refl), λ e. (rw (e, walks) refl, rw (e, steps) refl))

pub along-cons :
    (P : List ℕ) (Q : List ℤ) (e : Edge) (ps : List (List Edge))
    → map (along P Q) (map (λ p. e ∷ p) ps) ≡ map (along (P ++ e.0 ∷ []) (Q ++ e.1 ∷ [])) ps
along-cons P Q e [] = refl
along-cons P Q e (p ∷ ps) = ap (λ r. along P Q (e ∷ p) ∷ r) (along-cons P Q e ps)

pub take-prefix {ℓ} :
    {A : Type ℓ} (xs ys zs : List A)
    → take (length (xs ++ ys)) zs ≡ xs ++ ys
    → take (length xs) zs ≡ xs
take-prefix [] ys zs h = refl
take-prefix (x ∷ xs) ys [] h = cc
take-prefix (x ∷ xs) ys (z ∷ zs) h =
    let t : take (length (xs ++ ys)) zs ≡ xs ++ ys = cc in
    let i : z ≡ x = cc in let ih : take (length xs) zs ≡ xs = take-prefix xs ys zs t in cc

pub take-longer {ℓ} : {A : Type ℓ} (n : ℕ) (xs : List A) → n ≤ length xs → length (take n xs) ≡ n
take-longer zero xs h = refl
take-longer (suc n) [] h = ground (arith, h)
take-longer (suc n) (x ∷ xs) h = ap suc (take-longer n xs (omega (arith, h)))

pub take-length {ℓ} : {A : Type ℓ} (xs : List A) → take (length xs) xs ≡ xs
take-length [] = refl
take-length (x ∷ xs) = ap (λ r. x ∷ r) (take-length xs)

pub Below-at : {P : List ℕ} {Q : List ℤ} {s : Search} → s.walk ≡ P → s.walk_kinds ≡ Q → Below P Q s
Below-at {s = s} p q = record {
  walked = subst (λ x. take (length x) s.walk ≡ x) p (take-length s.walk);
  kinds_walked = subst (λ x. take (length x) s.walk_kinds ≡ x) q (take-length s.walk_kinds);
}

-- What is below the end of the walk is below where the walk was before.
pub Below-step :
    {P : List ℕ} {Q : List ℤ} {s : Search} (w : ℕ) (k : ℤ)
    → Below (P ++ w ∷ []) (Q ++ k ∷ []) s
    → Below P Q s
Below-step {P = P} {Q = Q} {s = s} w k b = record {
  walked = take-prefix P (w ∷ []) s.walk b.walked;
  kinds_walked = take-prefix Q (k ∷ []) s.walk_kinds b.kinds_walked;
}

pub walks-onward :
    (turn : ℕ → ℕ → Turn) (h len u : ℕ) (es : List Edge)
    → turn u len ≡ onward es
    → walks turn (suc h) len u
      ≡ each (λ e. map (λ p. e ∷ p) (walks turn h (suc len) e.0)) (reverse es)
unfolding walks
walks-onward turn h len u es e = rw (e, walks) refl

pub steps-onward :
    (turn : ℕ → ℕ → Turn) (h len u : ℕ) (es : List Edge)
    → turn u len ≡ onward es
    → steps turn (suc h) len u ≡ 1 + total (λ e. steps turn h (suc len) e.0) (reverse es)
unfolding steps
steps-onward turn h len u es e = rw (e, steps) refl
