-- ===== src/BootGap/Buffer/Complete.antt =====
-- A buffer that is not poisoned has lost no counter.
use blood_trail.Prelude.{
  ℕ, ◌+◌, ◌≡◌, ◌≢◌, refl, sym, ap, ◌∙◌, Str, Bool, true, false, List, [], ◌∷◌, ◌++◌, map,
  append-nil, Option, none, some, ltb, leb, if◌then◌else◌, length,
}
use blood_trail.Changes.{ChangeSet, empty, key_count, has_fallback}
use blood_trail.Changes.Scope.{WriteScope, watermark_of}
use blood_trail.BootGap.Buffer.{
  max_boot_gap_entries, max_boot_gap_keys, PoisonReason, nil_write_scope, unbumped_write,
  too_many_writes, too_many_keys, fallback_write, BootGapEntry, BootGapBuffer, activate, deactivate,
  poison, append, to_replay, first_reason, observe_bump, observe_changes, append_counter, observe,
  observe_abandoned, take_entries,
}
use blood_trail.BootGap.Buffer.Bounds.{
  Call, activated, deactivated, taken, observed, abandoned, run_calls, apply_call, if-keeps,
}

first_reason_some : (o : Option PoisonReason) (r : PoisonReason) → first_reason o r ≢ none
first_reason_some none r h = cc
first_reason_some (some x) r h = cc

abbrev pub counter_due : Option ℕ → List ℕ
counter_due none = []
counter_due (some n) = n ∷ []

ifs_keep {ℓ κ μ} :
    {A : Type ℓ} {B : Type κ} (R : A → B → Type μ) (t : Bool) {x y : A} {z w : B}
    → R x z
    → R y w
    → R (if t then x else y) (if t then z else w)
ifs_keep R true p q = p
ifs_keep R false p q = q

append_if :
    (t : Bool) (xs ys : List ℕ) → xs ++ (if t then ys else []) ≡ (if t then xs ++ ys else xs)
append_if true xs ys = refl
append_if false xs ys = append-nil xs

module _ {K : Type 0} where
  abbrev pub counters : BootGapBuffer K → List ℕ
  counters b = map (λ e. e.counter) b.entries

  abbrev pub scope_due : Option (WriteScope K) → List ℕ
  scope_due none = []
  scope_due (some s) = counter_due (watermark_of s)

  -- The buffer is active after these calls.
  abbrev pub listening : List (Call K) → Bool
  listening [] = false
  listening (activated ∷ h) = true
  listening (deactivated ∷ h) = false
  listening (taken ∷ h) = false
  listening (observed s ∷ h) = listening h
  listening (abandoned s ∷ h) = listening h

  -- The counters of the bumped scopes that were handed over while the buffer was active, since it
  -- was last emptied, in order.
  abbrev pub due : List (Call K) → List ℕ
  due [] = []
  due (activated ∷ h) = due h
  due (deactivated ∷ h) = []
  due (taken ∷ h) = []
  due (observed s ∷ h) = if listening h then due h ++ scope_due s else due h
  due (abandoned s ∷ h) = if listening h then due h ++ scope_due s else due h

  -- b' has gained the counters, unless it is poisoned.
  record Gains (b b' : BootGapBuffer K) (new : List ℕ) : Type 0 where
    pub same_active : b'.active ≡ b.active
    pub gains : b'.poisoned ≡ none → (b.poisoned ≡ none) × (counters b' ≡ counters b ++ new)

  poison-Gains : (r : PoisonReason) (b : BootGapBuffer K) (new : List ℕ) → Gains b (poison r b) new
  unfolding poison
  poison-Gains r b new = record {
    same_active = refl;
    gains = λ h. absurd (first_reason_some b.poisoned r h);
  }

  idle-Gains : (b : BootGapBuffer K) → Gains b b []
  idle-Gains b = record { same_active = refl; gains = λ h. (h, sym (append-nil (counters b))) }

  counters-append :
      (es : List (BootGapEntry K)) (e : BootGapEntry K)
      → map (λ e. e.counter) (es ++ e ∷ []) ≡ map (λ e. e.counter) es ++ e.counter ∷ []
  counters-append [] e = refl
  counters-append (x ∷ es) e = ap (λ r. x.counter ∷ r) (counters-append es e)

  append-Gains :
      (n : ℕ) (cs : Option (ChangeSet K)) (b : BootGapBuffer K) → Gains b (append n cs b) (n ∷ [])
  unfolding append
  append-Gains n none b =
      if-keeps (λ b'. Gains b b' (n ∷ [])) (leb max_boot_gap_entries (length b.entries))
        (poison-Gains too_many_writes b (n ∷ []))
        (record { same_active = refl; gains = λ h. (h, counters-append b.entries _) })
  append-Gains n (some c) b =
      if-keeps (λ b'. Gains b b' (n ∷ [])) (leb max_boot_gap_entries (length b.entries))
        (poison-Gains too_many_writes b (n ∷ []))
        (if-keeps (λ b'. Gains b b' (n ∷ [])) (ltb max_boot_gap_keys (b.keys_held + key_count c))
          (poison-Gains too_many_keys b (n ∷ []))
          (record { same_active = refl; gains = λ h. (h, counters-append b.entries _) }))

  observe_bump-Gains :
      (o : Option ℕ) (c : ChangeSet K) (b : BootGapBuffer K)
      → Gains b (observe_bump o c b) (counter_due o)
  unfolding observe_bump
  observe_bump-Gains (some n) c b = append-Gains n (to_replay c) b
  observe_bump-Gains none c b =
      if-keeps (λ b'. Gains b b' []) (empty c) (idle-Gains b) (poison-Gains unbumped_write b [])

  observe_changes-Gains :
      (o : Option (List Str)) (s : WriteScope K) (b : BootGapBuffer K)
      → Gains b (observe_changes o s b) (counter_due (watermark_of s))
  unfolding observe_changes
  observe_changes-Gains (some r) s b =
      poison-Gains (fallback_write r) b (counter_due (watermark_of s))
  observe_changes-Gains none s b = observe_bump-Gains (watermark_of s) s.changes b

  observe-Gains :
      (s : Option (WriteScope K)) (b : BootGapBuffer K)
      → Gains b (observe s b) (if b.active then scope_due s else [])
  unfolding observe
  observe-Gains none b =
      ifs_keep (Gains b) b.active (poison-Gains nil_write_scope b []) (idle-Gains b)
  observe-Gains (some s) b =
      ifs_keep (Gains b) b.active (observe_changes-Gains (has_fallback s.changes) s b)
        (idle-Gains b)

  append_counter-Gains :
      (o : Option ℕ) (b : BootGapBuffer K) → Gains b (append_counter o b) (counter_due o)
  unfolding append_counter
  append_counter-Gains none b = idle-Gains b
  append_counter-Gains (some n) b = append-Gains n none b

  abandoned-Gains :
      (s : Option (WriteScope K)) (b : BootGapBuffer K)
      → Gains b (observe_abandoned s b) (if b.active then scope_due s else [])
  unfolding observe_abandoned
  abandoned-Gains none b = if-keeps (Gains b b) b.active (idle-Gains b) (idle-Gains b)
  abandoned-Gains (some s) b =
      ifs_keep (Gains b) b.active (append_counter-Gains (watermark_of s) b) (idle-Gains b)

  -- The buffer follows the calls.
  record Follows (h : List (Call K)) (b : BootGapBuffer K) : Type 0 where
    pub active_is : b.active ≡ listening h
    pub complete : b.poisoned ≡ none → counters b ≡ due h

  after_call :
      (h : List (Call K)) (b b' : BootGapBuffer K) (new : List ℕ)
      → Follows h b
      → Gains b b' (if b.active then new else [])
      → (b'.active ≡ listening h)
        × (b'.poisoned ≡ none → counters b' ≡ (if listening h then due h ++ new else due h))
  after_call h b b' new f g = (
    g.same_active ∙ f.active_is,
    λ p.
        let (clean, more) = g.gains p in
        more
        ∙ ap (λ xs. xs ++ (if b.active then new else [])) (f.complete clean)
        ∙ append_if b.active (due h) new
        ∙ ap (λ t. if t then due h ++ new else due h) f.active_is,
  )

  run_calls-Follows : (h : List (Call K)) → Follows h (run_calls h)
  unfolding run_calls apply_call activate deactivate take_entries
  run_calls-Follows [] = record { active_is = refl; complete = λ p. refl }
  run_calls-Follows (activated ∷ h) = record {
    active_is = refl;
    complete = (run_calls-Follows h).complete;
  }
  run_calls-Follows (deactivated ∷ h) = record { active_is = refl; complete = λ p. refl }
  run_calls-Follows (taken ∷ h) = record { active_is = refl; complete = λ p. refl }
  run_calls-Follows (observed s ∷ h) =
      let b = run_calls h in
      let r =
        after_call h b (observe s b) (scope_due s) (run_calls-Follows h) (observe-Gains s b) in
      record { active_is = r.0; complete = r.1 }
  run_calls-Follows (abandoned s ∷ h) =
      let b = run_calls h in
      let r =
        after_call h b (observe_abandoned s b) (scope_due s) (run_calls-Follows h)
          (abandoned-Gains s b) in
      record { active_is = r.0; complete = r.1 }

  -- After any calls, entries that are taken with no reason carry the counters of exactly the bumped
  -- scopes handed over while the buffer was active, in order.
  pub take_entries_complete :
      (h : List (Call K))
      → (take_entries (run_calls h)).1 ≡ none
      → map (λ e. e.counter) (take_entries (run_calls h)).0 ≡ due h
  unfolding take_entries
  take_entries_complete h p = (run_calls-Follows h).complete p
