-- ===== src/Traverse/Machine/Run.antt =====
-- The loop stores the walks, one after the other, until a verdict stops it.
use blood_trail.Prelude.{
  ℕ, zero, suc, ◌+◌, ◌≤◌, ◌<◌, ◌^◌, ◌≡◌, refl, sym, ap, ◌∙◌, inl, inr, Bool, true, List, [], ◌∷◌,
  ◌++◌, Option, some, length, length-append, take, pos, ◌-◌, All, map, ℤ, arith,
}
use mathlib.Core.Path.{subst}
use mathlib.Core.List.{reverse, map-append}
use blood_trail.Traverse.Adjacency.{Edge}
use blood_trail.Traverse.Budget.{Store}
use blood_trail.Traverse.Machine.{
  Turn, skip, arrive, onward, Frame, Search, moved, push_all, deposit, run, start, settle,
}
use blood_trail.Traverse.Machine.Walks.{each, total, walks, steps, Shallow, along, feed}
use blood_trail.Traverse.Machine.Frames.{
  Turn-cases, frames, push_all-frames, Below, settle-feed, settle-feed_one, settle-ext, leaf_walks,
  along-cons, Below-at, Below-step, walks-onward, steps-onward,
}

module _ (turn : ℕ → ℕ → Turn) (cap : ℕ) (reversed : Bool) where
  -- From a frame whose node ends the walk (P, Q): the walks on from it are stored, then what is
  -- below it on the stack is taken.
  abbrev VisitsAt : ℕ → Frame → Type 0
  VisitsAt h f =
      (fs : List Frame) (s : Search) (n : ℕ) (k : Store → Option (Store × Bool)) (P : List ℕ)
      (Q : List ℤ)
      → (moved f s).walk ≡ P
      → (moved f s).walk_kinds ≡ Q
      → length P ≡ suc f.depth
      → length Q ≡ f.depth
      → f.depth + h < 2 ^ 16
      → Shallow turn h (suc f.depth) f.node
      → ((s' : Search) → Below P Q s' → run turn cap reversed n fs s' ≡ k s'.store)
      → run turn cap reversed (steps turn h (suc f.depth) f.node + n) (f ∷ fs) s
        ≡ settle (feed cap reversed (map (along P Q) (walks turn h (suc f.depth) f.node)) s.store) k

  siblings :
      (h : ℕ)
      → ((f : Frame) → VisitsAt h f)
      → (P : List ℕ) (Q : List ℤ) (d : ℕ) (es : List Edge) (fs : List Frame) (s : Search) (n : ℕ)
        (k : Store → Option (Store × Bool))
      → length P ≡ suc d
      → length Q ≡ d
      → suc d + h < 2 ^ 16
      → All (λ (e : Edge). Shallow turn h (suc (suc d)) e.0) es
      → ((s' : Search) → Below P Q s' → run turn cap reversed n fs s' ≡ k s'.store)
      → Below P Q s
      → run turn cap reversed
          (total (λ e. steps turn h (suc (suc d)) e.0) es + n)
          (frames d es fs)
          s
        ≡ settle
            (feed cap reversed
              (map (along P Q) (each (λ e. map (λ p. e ∷ p) (walks turn h (suc (suc d)) e.0)) es))
              s.store)
            k
  unfolding feed settle
  siblings h v P Q d [] fs s n k p q b sh K at = let z : 0 + n ≡ n = omega arith in rw (z) (K s at)
  siblings h v P Q d (e ∷ es) fs s n k p q b sh K at =
      let W = walks turn h (suc (suc d)) e.0 in
      let rest = each (λ e. map (λ p. e ∷ p) (walks turn h (suc (suc d)) e.0)) es in
      let g : Frame = record { node = e.0; kind = e.1; depth = suc d } in
      let later = total (λ e. steps turn h (suc (suc d)) e.0) es in
      let a : steps turn h (suc (suc d)) e.0 + later + n
          ≡ steps turn h (suc (suc d)) e.0 + (later + n) =
        omega arith in
      rw
        (
          map-append (along P Q) (map (λ p. e ∷ p) W) rest,
          along-cons P Q e W,
          settle-feed cap reversed (map (along (P ++ e.0 ∷ []) (Q ++ e.1 ∷ [])) W)
              (map (along P Q) rest) s.store k,
        )
        (ap (λ m. run turn cap reversed m (g ∷ frames d es fs) s) a
          ∙ (v g (frames d es fs) s (later + n)
              (λ st. settle (feed cap reversed (map (along P Q) rest) st) k) (P ++ e.0 ∷ [])
              (Q ++ e.1 ∷ []) (ap (λ w. w ++ e.0 ∷ []) (subst (λ m. take m s.walk ≡ P) p at.walked))
              (ap (λ w. w ++ e.1 ∷ []) (subst (λ m. take m s.walk_kinds ≡ Q) q at.kinds_walked))
              (omega (arith, length-append P (e.0 ∷ []), p))
              (omega (arith, length-append Q (e.1 ∷ []), q)) b sh.0
              (λ s' b'. siblings h v P Q d es fs s' n k p q b sh.1 K (Below-step e.0 e.1 b'))))

  pub run-skip :
      (f : Frame) (fs : List Frame) (s : Search) (n : ℕ)
      → turn f.node (length (moved f s).walk) ≡ skip
      → run turn cap reversed (suc n) (f ∷ fs) s ≡ run turn cap reversed n fs (moved f s)
  unfolding run
  run-skip f fs s n e = rw (e, run) refl

  pub run-onward :
      (f : Frame) (fs : List Frame) (s : Search) (n : ℕ) (es : List Edge)
      → turn f.node (length (moved f s).walk) ≡ onward es
      → run turn cap reversed (suc n) (f ∷ fs) s
        ≡ run turn cap reversed n (push_all f.depth es fs) (moved f s)
  unfolding run
  run-onward f fs s n es e = rw (e, run) refl

  pub run-arrive :
      (f : Frame) (fs : List Frame) (s : Search) (n : ℕ)
      → turn f.node (length (moved f s).walk) ≡ arrive
      → run turn cap reversed (suc n) (f ∷ fs) s
        ≡ settle
            (deposit cap reversed (moved f s).walk (moved f s).walk_kinds s.store)
            (λ st. run turn cap reversed n fs (record (moved f s) { store = st }))
  unfolding run settle
  run-arrive f fs s n e = rw (e, run) refl

  visit_skip : (h : ℕ) (f : Frame) → turn f.node (suc f.depth) ≡ skip → VisitsAt h f
  unfolding settle feed
  visit_skip h f e fs s n k P Q wp wq lp lq b sh K =
      let l = leaf_walks turn h (suc f.depth) f.node in
      let z : 1 + n ≡ suc n = omega arith in
      let e' : turn f.node (length (moved f s).walk) ≡ skip = rw (wp, lp) e in
      rw ((l.0 e).0, (l.0 e).1, z) (run-skip f fs s n e' ∙ K (moved f s) (Below-at wp wq))

  visit_arrive : (h : ℕ) (f : Frame) → turn f.node (suc f.depth) ≡ arrive → VisitsAt h f
  visit_arrive h f e fs s n k P Q wp wq lp lq b sh K =
      let l = leaf_walks turn h (suc f.depth) f.node in
      let z : 1 + n ≡ suc n = omega arith in
      let e' : turn f.node (length (moved f s).walk) ≡ arrive = rw (wp, lp) e in
      rw ((l.1 e).0, (l.1 e).1, z)
        (run-arrive f fs s n e'
          ∙ settle-ext _ _ _ (λ st. K (record (moved f s) { store = st }) (Below-at wp wq))
          ∙ rw (wp, wq) (sym (settle-feed_one cap reversed (along P Q []) s.store k)))

  visit_onward :
      (h : ℕ) (f : Frame) (es : List Edge)
      → ((g : Frame) → VisitsAt h g)
      → turn f.node (suc f.depth) ≡ onward es
      → VisitsAt (suc h) f
  unfolding Shallow
  visit_onward h f es v e fs s n k P Q wp wq lp lq b sh K =
      let W = reverse es in
      let m = total (λ e. steps turn h (suc (suc f.depth)) e.0) W in
      let a : 1 + m + n ≡ suc (m + n) = omega arith in
      let e' : turn f.node (length (moved f s).walk) ≡ onward es = rw (wp, lp) e in
      let b' : suc f.depth + h < 2 ^ 16 = omega (arith, b) in
      rw
        (
          walks-onward turn h (suc f.depth) f.node es e,
          steps-onward turn h (suc f.depth) f.node es e,
          a,
        )
        (run-onward f fs s (m + n) es e'
          ∙ ap (λ q. run turn cap reversed (m + n) q (moved f s))
              (push_all-frames f.depth es [] fs (omega (arith, b)))
          ∙ siblings h v P Q f.depth W fs (moved f s) n k lp lq b' (sh es e) K (Below-at wp wq))

  visit_end : (f : Frame) → turn f.node (suc f.depth) ≡ onward [] → VisitsAt 0 f
  unfolding settle feed walks steps
  visit_end f e fs s n k P Q wp wq lp lq b sh K =
      let z : 1 + n ≡ suc n = omega arith in
      let e' : turn f.node (length (moved f s).walk) ≡ onward [] = rw (wp, lp) e in
      rw (e, walks, z) (run-onward f fs s n [] e' ∙ K (moved f s) (Below-at wp wq))

  visits : (h : ℕ) (f : Frame) → VisitsAt h f
  unfolding Shallow
  visits zero f fs s n k P Q wp wq lp lq b sh K = elim (Turn-cases (turn f.node (suc f.depth))) [
    | inl e ↦ visit_skip zero f e fs s n k P Q wp wq lp lq b sh K
    | inr (inl e) ↦ visit_arrive zero f e fs s n k P Q wp wq lp lq b sh K
    | inr (inr (es, e)) ↦ visit_end f (e ∙ ap onward (sh es e)) fs s n k P Q wp wq lp lq b sh K
  ]
  visits (suc h) f fs s n k P Q wp wq lp lq b sh K = elim (Turn-cases (turn f.node (suc f.depth))) [
    | inl e ↦ visit_skip (suc h) f e fs s n k P Q wp wq lp lq b sh K
    | inr (inl e) ↦ visit_arrive (suc h) f e fs s n k P Q wp wq lp lq b sh K
    | inr (inr (es, e)) ↦ visit_onward h f es (visits h) e fs s n k P Q wp wq lp lq b sh K
  ]

  -- From an empty walk: the walks from u are stored, until a verdict stops it.
  pub run-walks :
      (h u fuel : ℕ) (st : Store)
      → h < 2 ^ 16
      → Shallow turn h 1 u
      → steps turn h 1 u ≤ fuel
      → run turn cap reversed fuel (record { node = u; kind = pos 0; depth = 0 } ∷ []) (start u st)
        ≡ settle
            (feed cap reversed (map (along (u ∷ []) []) (walks turn h 1 u)) st)
            (λ s. some (s, true))
  unfolding run
  run-walks h u fuel st b sh enough =
      let n = fuel - steps turn h 1 u in
      let e : fuel ≡ steps turn h 1 u + n = omega (arith, enough) in
      let f : Frame = record { node = u; kind = pos 0; depth = 0 } in
      ap (λ m. run turn cap reversed m (f ∷ []) (start u st)) e
      ∙ visits h f [] (start u st) n (λ s. some (s, true)) (u ∷ []) [] refl refl refl refl
          (omega (arith, b)) sh (λ s' _. refl)
