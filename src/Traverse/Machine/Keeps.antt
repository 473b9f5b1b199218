-- ===== src/Traverse/Machine/Keeps.antt =====
-- What each stored path keeps, the loop keeps.
use blood_trail.Prelude.{
  ℕ, zero, suc, ◌≤◌, ◌<◌, ◌≡◌, refl, sym, inl, inr, Bool, true, false, ◌&&◌, List, [], ◌∷◌, Option,
  none, some, length, ltb, ◌++◌, ◌%◌, ◌^◌, ◌==◌, if◌then◌else◌, if_cases, ℤ, arith, length-append,
  Option-cases,
}
use mathlib.Core.Path.{subst}
use blood_trail.Traverse.Sink.{PathSink, add_path, add_chunk, needs_chunk}
use blood_trail.Traverse.Budget.{MemBudget, Store, add_bytes, path_bytes}
use blood_trail.Traverse.Machine.{
  Turn, Verdict, open_, full, failed, Frame, Search, moved, push_all, deposit, run, settle,
}
use blood_trail.Traverse.Machine.Frames.{Turn-cases}
use blood_trail.Traverse.Machine.Run.{run-skip, run-onward, run-arrive}

module _ (Open : Store → Type 0) (Shut : Store × Bool → Type 0) where
  abbrev pub Kept : Verdict → Type 0
  Kept (open_ st) = Open st
  Kept (full st) = Shut (st, true)
  Kept (failed st) = Shut (st, false)

module _ (Shut : Store × Bool → Type 0) where
  -- It holds of what is returned, if the fuel was enough.
  abbrev pub Ends : Option (Store × Bool) → Type 0
  Ends none = Unit
  Ends (some r) = Shut r

settle-Ends :
    (Open : Store → Type 0) (Shut : Store × Bool → Type 0) (v : Verdict)
    (k : Store → Option (Store × Bool))
    → Kept Open Shut v
    → ((st : Store) → Open st → Ends Shut (k st))
    → Ends Shut (settle v k)
unfolding settle
settle-Ends Open Shut (open_ st) k h g = g st h
settle-Ends Open Shut (full st) k h g = h
settle-Ends Open Shut (failed st) k h g = h

-- A property that each deposit keeps, and that a stop relaxes, holds of what the loop returns.
pub run-Ends :
    (Open : Store → Type 0) (Shut : Store × Bool → Type 0) (turn : ℕ → ℕ → Turn) (cap : ℕ)
    (reversed : Bool)
    → ((nodes : List ℕ) (kinds : List ℤ) (st : Store)
        → Open st
        → Kept Open Shut (deposit cap reversed nodes kinds st))
    → ((st : Store) → Open st → Shut (st, true))
    → (fuel : ℕ) (fs : List Frame) (s : Search) → Open s.store
    → Ends Shut (run turn cap reversed fuel fs s)
unfolding run
run-Ends Open Shut turn cap reversed dep weak fuel [] s h = weak s.store h
run-Ends Open Shut turn cap reversed dep weak zero (f ∷ fs) s h = tt
run-Ends Open Shut turn cap reversed dep weak (suc fuel) (f ∷ fs) s h =
    let ih = run-Ends Open Shut turn cap reversed dep weak fuel in
    elim (Turn-cases (turn f.node (length (moved f s).walk))) [
      | inl e ↦
          subst (Ends Shut) (sym (run-skip turn cap reversed f fs s fuel e)) (ih fs (moved f s) h)
      | inr (inl e) ↦ subst (Ends Shut) (sym (run-arrive turn cap reversed f fs s fuel e)) (
          settle-Ends Open Shut _ _ (dep (moved f s).walk (moved f s).walk_kinds s.store h)
            (λ st g. ih fs (record (moved f s) { store = st }) g))
      | inr (inr (es, e)) ↦
          subst (Ends Shut) (sym (run-onward turn cap reversed f fs s fuel es e))
            (ih (push_all f.depth es fs) (moved f s) h)
    ]

-- A sink that counts its lengths, and has fewer than the cap.
pub record Under (cap : ℕ) (st : Store) : Type 0 where
  pub counted : length st.sink.lens ≡ st.sink.n
  pub fewer : st.sink.n < cap

pub record Within (cap : ℕ) (st : Store) : Type 0 where
  pub counted : length st.sink.lens ≡ st.sink.n
  pub most : st.sink.n ≤ cap

pub add_path-count :
    (nodes : List ℕ) (kinds : List ℤ) (b : Bool) (st : Store)
    → ((add_path nodes kinds b st.sink).n ≡ suc st.sink.n)
      × (length (add_path nodes kinds b st.sink).lens ≡ suc (length st.sink.lens))
unfolding add_path add_chunk
add_path-count nodes kinds b st =
    if_cases
      (λ (room : PathSink).
        (suc room.n ≡ suc st.sink.n)
        × (length (room.lens ++ length nodes % 2 ^ 16 ∷ []) ≡ suc (length st.sink.lens)))
      (needs_chunk (length nodes) st.sink.chunks)
      (λ _. (refl, omega (arith, length-append st.sink.lens (length nodes % 2 ^ 16 ∷ []))))
      (λ _. (refl, omega (arith, length-append st.sink.lens (length nodes % 2 ^ 16 ∷ []))))

abbrev pub paid : Store → MemBudget → List ℕ → List ℤ → Bool → Store
paid st b nodes kinds reversed = record { budget = b; sink = add_path nodes kinds reversed st.sink }

module _ (cap : ℕ) (reversed : Bool) (nodes : List ℕ) (kinds : List ℤ) (st : Store) where
  pub deposit-refused :
      add_bytes (path_bytes (length nodes)) st.budget ≡ none
      → deposit cap reversed nodes kinds st ≡ failed st
  unfolding deposit
  deposit-refused e = rw (e, deposit) refl

  pub deposit-paid :
      (b : MemBudget)
      → add_bytes (path_bytes (length nodes)) st.budget ≡ some b
      → deposit cap reversed nodes kinds st ≡ (
          if ltb 0 cap && (paid st b nodes kinds reversed).sink.n == cap
          then full (paid st b nodes kinds reversed)
          else open_ (paid st b nodes kinds reversed))
  unfolding deposit
  deposit-paid b e = rw (e, deposit) refl

  -- A property of what a deposit leaves, by its cases.
  pub deposit-cases :
      (P : Verdict → Type 0)
      → (add_bytes (path_bytes (length nodes)) st.budget ≡ none → P (failed st))
      → ((b : MemBudget)
          → add_bytes (path_bytes (length nodes)) st.budget ≡ some b
          → ((ltb 0 cap && (paid st b nodes kinds reversed).sink.n == cap) ≡ true
              → P (full (paid st b nodes kinds reversed)))
            × ((ltb 0 cap && (paid st b nodes kinds reversed).sink.n == cap) ≡ false
                → P (open_ (paid st b nodes kinds reversed))))
      → P (deposit cap reversed nodes kinds st)
  deposit-cases P h g = elim (Option-cases (add_bytes (path_bytes (length nodes)) st.budget)) [
    | inl e ↦ subst P (sym (deposit-refused e)) (h e)
    | inr (b, e) ↦ subst P (sym (deposit-paid b e)) (if_cases P _ (g b e).0 (g b e).1)
  ]

pub deposit-Under :
    (cap : ℕ) (reversed : Bool) (nodes : List ℕ) (kinds : List ℤ) (st : Store)
    → Under cap st
    → Kept (Under cap) (λ r. Within cap r.0) (deposit cap reversed nodes kinds st)
deposit-Under cap reversed nodes kinds st h =
    deposit-cases cap reversed nodes kinds st (Kept (Under cap) (λ r. Within cap r.0))
      (λ _. record { counted = h.counted; most = omega (arith, h.fewer) })
      (λ b _.
        let (n, l) = add_path-count nodes kinds reversed st in
        (
          λ t. record {
            counted = omega (arith, n, l, h.counted);
            most = omega (arith, n, h.fewer);
          },
          λ f. record {
            counted = omega (arith, n, l, h.counted);
            fewer = ground (arith, f, n, h.fewer);
          },
        ))
