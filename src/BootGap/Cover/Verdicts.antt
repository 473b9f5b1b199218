-- ===== src/BootGap/Cover/Verdicts.antt =====
-- What each verdict of `bootGapCoveredAt` says of the counters, in any order.
use blood_trail.Prelude.{
  ℕ, ◌≤◌, ◌<◌, ◌≡◌, refl, Bool, true, false, List, [], ◌∷◌, Option, none, some, ltb, leb, arith,
  inc64, inc64-suc, bigint_bound, count, sort, SortedFrom, count-below, count-sort, sort-SortedFrom,
  sort-All, ◌⊎◌, ◌↔◌, inl, inr, Bool-cases, ltb→lt,
}
use blood_trail.BootGap.Cover.{
  covered, contradiction, repeats, next_after, hole_after, scan, boot_gap_covered_at,
}
use blood_trail.BootGap.Cover.Scan.{Bounded, After, covered-Fills, Fills-covered, After-sorted}

module _ (file pg : ℕ) where
  -- A counter left that equals the previous one.
  repeated-contradiction :
      (x next : ℕ) (gap : Bool) (cs : List ℕ)
      → SortedFrom x cs
      → 0 < count x cs
      → (scan file pg (some x) next gap cs).0 ≡ contradiction
  unfolding scan
  repeated-contradiction x next gap [] s h = absurd (omega arith)
  repeated-contradiction x next gap (c ∷ cs) s h = ground (arith, count-below c x cs s.1)

  twice-contradiction :
      (x : ℕ) (previous : Option ℕ) (next : ℕ) (gap : Bool) (cs : List ℕ)
      → After previous cs
      → 2 ≤ count x cs
      → (scan file pg previous next gap cs).0 ≡ contradiction
  unfolding scan
  twice-contradiction x previous next gap [] s h = absurd (omega arith)
  twice-contradiction x previous next gap (c ∷ cs) s h =
      let s' = After-sorted previous c cs s in
      let next' = next_after pg next c in
      let gap' = hole_after pg next gap c in
      ground (
        arith,
        repeated-contradiction c next' gap' cs s',
        twice-contradiction x (some c) next' gap' cs s',
      )

  claimed-contradiction :
      (x : ℕ) (previous : Option ℕ) (next : ℕ) (gap : Bool) (cs : List ℕ)
      → x ≤ file
      → 0 < count x cs
      → (scan file pg previous next gap cs).0 ≡ contradiction
  unfolding scan
  claimed-contradiction x previous next gap [] h p = absurd (omega arith)
  claimed-contradiction x previous next gap (c ∷ cs) h p =
      ground (
        arith,
        claimed-contradiction x (some c) (next_after pg next c) (hole_after pg next gap c) cs,
      )

  abbrev Clashes : Option ℕ → List ℕ → Type 0
  Clashes previous cs =
      ((x : ℕ) × (repeats previous x ≡ true) × (0 < count x cs))
      ⊎ ((x : ℕ) × (2 ≤ count x cs))
      ⊎ ((x : ℕ) × (x ≤ file) × (0 < count x cs))

  Clashes-cons :
      (previous : Option ℕ) (c : ℕ) (cs : List ℕ) → Clashes (some c) cs → Clashes previous (c ∷ cs)
  Clashes-cons previous c cs (inl (x, e, h)) = inr (inl (x, ground arith))
  Clashes-cons previous c cs (inr (inl (x, h))) = inr (inl (x, ground arith))
  Clashes-cons previous c cs (inr (inr (x, p, h))) = inr (inr (x, p, ground arith))

  contradiction-Clashes :
      (previous : Option ℕ) (next : ℕ) (gap : Bool) (cs : List ℕ)
      → (scan file pg previous next gap cs).0 ≡ contradiction
      → Clashes previous cs
  unfolding scan
  contradiction-Clashes previous next gap [] h = absurd (ground arith)
  contradiction-Clashes previous next gap (c ∷ cs) h = elim (Bool-cases (repeats previous c)) [
    | inl e ↦ inl (c, e, ground arith)
    | inr e ↦ elim (Bool-cases (leb c file)) [
      | inl d ↦ inr (inr (c, ground arith, ground arith))
      | inr d ↦ Clashes-cons previous c cs (
          contradiction-Clashes (some c) (next_after pg next c) (hole_after pg next gap c) cs
            (ground arith))
    ]
  ]

-- The counters are exactly those above the file's stamp and up to the target, each once, and
-- maybe others above the target.
pub record Covers (file pg : ℕ) (counters : List ℕ) : Type 0 where
  pub reached : file ≤ pg
  pub single : (x : ℕ) → count x counters ≤ 1
  pub unclaimed : (x : ℕ) → x ≤ file → count x counters ≡ 0
  pub filled : (x : ℕ) → file < x → x ≤ pg → count x counters ≡ 1

-- The counters contradict the file.
abbrev pub Contradicts : ℕ → ℕ → List ℕ → Type 0
Contradicts file pg counters =
    (pg < file)
    ⊎ ((x : ℕ) × (2 ≤ count x counters))
    ⊎ ((x : ℕ) × (x ≤ file) × (0 < count x counters))

sort-Bounded : (cs : List ℕ) → Bounded cs → Bounded (sort cs)
sort-Bounded cs b = sort-All (λ c. c ≤ bigint_bound) cs b

module _ (file pg : ℕ) (counters : List ℕ) where
  -- For a stamp, a target and counters in the range of a PostgreSQL bigint, the verdict is
  -- `covered` exactly when the target is not below the stamp, no counter occurs twice, none is at
  -- or below the stamp, and each value above the stamp and up to the target occurs.
  pub covered_iff :
      file ≤ bigint_bound
      → pg ≤ bigint_bound
      → Bounded counters
      → ((boot_gap_covered_at file pg counters).0 ≡ covered) ↔ Covers file pg counters
  unfolding boot_gap_covered_at
  covered_iff f k b = (
    λ e.
        let reached : file ≤ pg = ground arith in
        let fills =
          covered-Fills file pg k none (inc64 file) false (sort counters)
            (omega (arith, inc64-suc file f)) (sort-Bounded counters b) (sort-SortedFrom counters)
            (ground arith) in
        record {
          reached = reached;
          single = λ x. omega (arith, fills.single x, count-sort x counters);
          unclaimed = λ x p. omega (arith, fills.unclaimed x p, count-sort x counters);
          filled = λ x p q. ground (arith, fills.filled x, inc64-suc file f, count-sort x counters);
        },
    λ c.
        let low = λ (x : ℕ) (p : x < inc64 file). c.unclaimed x (omega (arith, inc64-suc file f)) in
        ground (
          arith,
          c.reached,
          Fills-covered file pg k none (inc64 file) false (sort counters) (sort-Bounded counters b)
              (sort-SortedFrom counters)
              (record {
                no_gap = refl;
                room = omega (arith, c.reached, inc64-suc file f);
                fresh = tt;
                single = λ x. omega (arith, c.single x, count-sort x counters);
                unclaimed = λ x p. omega (arith, c.unclaimed x p, count-sort x counters);
                filled =
                    λ x p q. ground (arith, c.filled x, inc64-suc file f, count-sort x counters);
              })
              (λ x p. omega (arith, low x p, count-sort x counters)),
        ),
  )

  unsorted : Clashes file pg none (sort counters) → Contradicts file pg counters
  unsorted (inl (x, e, h)) = cc
  unsorted (inr (inl (x, h))) = inr (inl (x, omega (arith, count-sort x counters)))
  unsorted (inr (inr (x, p, h))) = inr (inr (x, p, omega (arith, count-sort x counters)))

  sorted_clash :
      Contradicts file pg counters → (boot_gap_covered_at file pg counters).0 ≡ contradiction
  unfolding boot_gap_covered_at
  sorted_clash (inl h) = ground arith
  sorted_clash (inr (inl (x, h))) = ground (
    arith,
    twice-contradiction file pg x none (inc64 file) false (sort counters)
        (sort-SortedFrom counters),
    count-sort x counters,
  )
  sorted_clash (inr (inr (x, p, h))) = ground (
    arith,
    claimed-contradiction file pg x none (inc64 file) false (sort counters),
    count-sort x counters,
  )

  -- The verdict is `contradiction` exactly when the target is below the stamp, or a counter occurs
  -- twice, or one is at or below the stamp.
  pub contradiction_iff :
      ((boot_gap_covered_at file pg counters).0 ≡ contradiction) ↔ Contradicts file pg counters
  unfolding boot_gap_covered_at
  contradiction_iff = (
    λ e. elim (Bool-cases (ltb pg file)) [
      | inl d ↦ inl (ltb→lt pg file d)
      | inr d ↦
          unsorted
            (contradiction-Clashes file pg none (inc64 file) false (sort counters) (ground arith))
    ],
    λ c. sorted_clash c,
  )
