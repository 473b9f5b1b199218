-- ===== src/Watermark/Ledger/History.antt =====
-- The ledger after any history of calls, against the set of values that the history accounts for:
-- 0, each value resolved, and all values up to each floor.
use blood_trail.Prelude.{
  ℕ, suc, ◌≤◌, ◌≡◌, refl, ap, ◌∙◌, Bool, true, false, ◌||◌, List, [], ◌∷◌, ltb, leb, ◌==◌,
  if◌then◌else◌, arith, bigint_bound, inl, inr, ◌⊎◌, ◌↔◌, Bool-cases,
}
use blood_trail.Watermark.Ledger.{Ledger, new_ledger, resolve, rebase, resolved_through}
use blood_trail.Watermark.Ledger.Runs.{in_runs, accounted, Runs-below}
use blood_trail.Watermark.Ledger.Steps.{
  IsLedger, Resolves, Rebases, resolve-Resolves, rebase-Rebases,
}

-- A call on the ledger.
pub data Event : Type 0 where
  resolved rebased : ℕ → Event

abbrev pub claims : Event → ℕ → Bool
claims (resolved c) x = x == c
claims (rebased f) x = leb x f

-- The newest event comes first.
abbrev pub claimed : List Event → ℕ → Bool
claimed [] x = x == 0
claimed (e ∷ h) x = claimed h x || claims e x

abbrev pub value : Event → ℕ
value (resolved c) = c
value (rebased f) = f

abbrev pub Bigints : List Event → Type 0
Bigints [] = Unit {0}
Bigints (e ∷ h) = (value e ≤ bigint_bound) × Bigints h

-- The highest value resolved in a history.
abbrev pub highest_resolved : List Event → ℕ
highest_resolved [] = 0
highest_resolved (resolved c ∷ h) = if ltb (highest_resolved h) c then c else highest_resolved h
highest_resolved (rebased f ∷ h) = highest_resolved h

unfoldable pub apply : Event → Ledger → Ledger
apply (resolved c) l = resolve l c
apply (rebased f) l = rebase l f

unfoldable pub run : List Event → Ledger
unfolding apply
run [] = new_ledger
run (e ∷ h) = apply e (run h)

pub record Tracks (h : List Event) (l : Ledger) : Type 0 where
  pub ledger : IsLedger l
  pub highest_is : l.highest ≡ highest_resolved h
  pub sound : (x : ℕ) → accounted l x ≡ true → claimed h x ≡ true
  pub topped : (x : ℕ) → claimed h x ≡ true → (x ≤ l.highest) ⊎ (x ≤ l.through)
  pub complete : l.lost ≡ false → (x : ℕ) → claimed h x ≡ true → accounted l x ≡ true

-- With no runs kept, what is accounted for is what lies at or below `through`.
accounted-no_runs :
    (l : Ledger) → IsLedger l → l.lost ≡ true → (x : ℕ) → accounted l x ≡ leb x l.through
accounted-no_runs l v e x = ground (arith, ap (in_runs x) (v.gone e))

resolve_sound :
    (h : List Event) (l l' : Ledger) (c : ℕ)
    → Tracks h l
    → Resolves l c l'
    → (x : ℕ) → accounted l' x ≡ true
    → claimed (resolved c ∷ h) x ≡ true
resolve_sound h l l' c t r x e = elim (Bool-cases l'.lost) [
  | inl gone ↦
      let same = accounted-no_runs l' r.ledger gone x in
      elim (Bool-cases l.lost) [
        | inl p ↦ ground (arith, t.sound x, (r.stays_lost p).1)
        | inr p ↦ ground (arith, t.sound x, r.newly_lost p gone)
      ]
  | inr kept ↦ elim (Bool-cases l.lost) [
    | inl p ↦ cc ((r.stays_lost p).0)
    | inr p ↦ ground (arith, t.sound x, r.exact p kept x)
  ]
]

resolve_complete :
    (h : List Event) (l l' : Ledger) (c : ℕ)
    → Tracks h l
    → Resolves l c l'
    → l'.lost ≡ false
    → (x : ℕ) → claimed (resolved c ∷ h) x ≡ true
    → accounted l' x ≡ true
resolve_complete h l l' c t r kept x e = elim (Bool-cases l.lost) [
  | inl p ↦ cc ((r.stays_lost p).0)
  | inr p ↦ ground (arith, t.complete p x, r.exact p kept x)
]

resolve-Tracks :
    (h : List Event) (l l' : Ledger) (c : ℕ)
    → Tracks h l
    → Resolves l c l'
    → Tracks (resolved c ∷ h) l'
resolve-Tracks h l l' c t r = record {
  ledger = r.ledger;
  highest_is = r.highest_is ∙ ap (λ n. if ltb n c then c else n) t.highest_is;
  sound = resolve_sound h l l' c t r;
  topped = λ x e. ground (arith, t.topped x, r.highest_is, r.grows);
  complete = resolve_complete h l l' c t r;
}

rebase_complete :
    (h : List Event) (l l' : Ledger) (f : ℕ)
    → Tracks h l
    → Rebases l f l'
    → l'.lost ≡ false
    → (x : ℕ) → claimed (rebased f ∷ h) x ≡ true
    → accounted l' x ≡ true
rebase_complete h l l' f t r kept x e = elim (r.recovers.0 kept) [
  | inl p ↦ ground (arith, t.complete p x, r.exact x)
  | inr p ↦ ground (arith, t.topped x, r.exact x)
]

rebase-Tracks :
    (h : List Event) (l l' : Ledger) (f : ℕ)
    → Tracks h l
    → Rebases l f l'
    → Tracks (rebased f ∷ h) l'
rebase-Tracks h l l' f t r = record {
  ledger = r.ledger;
  highest_is = r.highest_kept ∙ t.highest_is;
  sound = λ x e. ground (arith, t.sound x, r.exact x);
  topped = λ x e. ground (arith, t.topped x, r.highest_kept, r.grows, r.covers);
  complete = rebase_complete h l l' f t r;
}

pub run-Tracks : (h : List Event) → Bigints h → Tracks h (run h)
unfolding run
run-Tracks [] b = record {
  ledger = record { runs = tt; bounded = omega arith; size = omega arith; gone = λ _. refl };
  highest_is = refl;
  sound = λ x e. ground arith;
  topped = λ x e. ground arith;
  complete = λ _ x e. ground arith;
}
run-Tracks (resolved c ∷ h) b =
    let t = run-Tracks h b.1 in
    resolve-Tracks h (run h) _ c t (resolve-Resolves (run h) c t.ledger b.0)
run-Tracks (rebased f ∷ h) b =
    let t = run-Tracks h b.1 in
    rebase-Tracks h (run h) _ f t (rebase-Rebases (run h) f t.ledger b.0)

-- After any history of resolve and rebase calls with values in the range of a PostgreSQL bigint, a
-- ledger that is not lost accounts for exactly the values that the history accounts for: 0, each
-- resolved value, and every value up to each floor.
pub run-accounted :
    (h : List Event)
    → Bigints h
    → (run h).lost ≡ false
    → (x : ℕ) → accounted (run h) x ≡ claimed h x
run-accounted h b e x = let t = run-Tracks h b in ground (arith, t.sound x, t.complete e x)

-- After any such history, each value up to the reported one is accounted for by the history, lost
-- or not, and when the report is exact the value that follows it is not.
pub resolved_through-contiguous :
    (h : List Event)
    → Bigints h
    → ((x : ℕ) → x ≤ (resolved_through (run h)).0 → claimed h x ≡ true)
      × ((resolved_through (run h)).1 ≡ true → claimed h (suc (resolved_through (run h)).0) ≡ false)
unfolding resolved_through
resolved_through-contiguous h b =
    let t = run-Tracks h b in
    let l = run h in
    (
      λ x p. t.sound x (ground arith),
      λ e. ground (
        arith,
        t.complete (ground arith) (suc l.through),
        Runs-below (suc l.through) (suc l.through) l.above t.ledger.runs (omega arith),
      ),
    )

-- A rebase makes the ledger exact exactly when it was exact, or when its floor covers the highest
-- value that was ever resolved.
pub rebase-exact_iff :
    (h : List Event) (f : ℕ)
    → Bigints h
    → f ≤ bigint_bound
    → ((resolved_through (rebase (run h) f)).1 ≡ true)
      ↔ (((resolved_through (run h)).1 ≡ true) ⊎ (highest_resolved h ≤ f))
unfolding resolved_through
rebase-exact_iff h f b k =
    let t = run-Tracks h b in
    let r = rebase-Rebases (run h) f t.ledger k in
    ground (arith, r.recovers.0, r.recovers.1, t.highest_is)

-- After any such history the runs are sorted, disjoint, not adjacent to one another or to the
-- values up to `through`, and at most `max_ledger_ranges` of them are kept.
pub run-IsLedger : (h : List Event) → Bigints h → IsLedger (run h)
run-IsLedger h b = (run-Tracks h b).ledger
