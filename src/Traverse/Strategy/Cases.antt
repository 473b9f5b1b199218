-- ===== src/Traverse/Strategy/Cases.antt =====
-- What every answer has, from what each strategy's answers have.
use blood_trail.Prelude.{
  ℕ, ◌*◌, ◌≡◌, refl, ◌≤◌, Bool, true, false, not, ◌&&◌, List, [], ◌∷◌, some, ltb, leb, ltb_false→le,
  if_cases,
}
use blood_trail.Traverse.Adjacency.{View}
use blood_trail.Traverse.Budget.{MemBudget}
use blood_trail.Traverse.Query.{Query, unconstrained, count}
use blood_trail.Traverse.Strategy.{
  cancelled, too_large, Progress, Next, each_of, Answer, strategy_pairs, strategy_small_side,
  all_shortest_paths, or_default, default_max_depth, default_pair_budget, default_side_budget,
  max_representable_depth,
}

-- A property that each step keeps.
pub each_of-keeps {ℓ} :
    {A : Type ℓ} (P : Progress → Type 0) (f : Progress → A → Next)
    → ((x : Progress) (a : A) → P x → P (f x a).0)
    → (xs : List A) (x : Progress) → P x
    → P (each_of f xs x).0
each_of-keeps P f k [] x h = h
each_of-keeps P f k (a ∷ xs) x h =
    if_cases (λ (y : Next). P y.0) (f x a).1 (λ _. each_of-keeps P f k xs (f x a).0 (k x a h))
      (λ _. k x a h)

-- The strategies run under a bound of at most 127 hops.
pub all_shortest_paths-cases :
    (fuel : ℕ) (s : View) (q : Query) (P : Answer → Type 0)
    → (q.ctx 0 ≡ true → P ([], some cancelled))
    → P ([], some too_large)
    → ((max_depth : ℕ) (b : MemBudget)
        → max_depth ≤ 127
        → b.limit ≡ q.memory_limit
        → P (strategy_pairs fuel s q max_depth b 1))
    → ((max_depth : ℕ) (b : MemBudget) (roots : Bool)
        → max_depth ≤ 127
        → b.limit ≡ q.memory_limit
        → P (strategy_small_side fuel s q max_depth b roots 1))
    → P (all_shortest_paths fuel s q)
unfolding all_shortest_paths
all_shortest_paths-cases fuel s q P c l pairs small =
    let depth : ℕ = or_default q.max_depth default_max_depth in
    let b : MemBudget = record { limit = q.memory_limit; used = 0; reserved = 0 } in
    let rc : ℕ = count q.roots s.node_count in
    let tc : ℕ = count q.terminals s.node_count in
    let side : ℕ = or_default q.side_budget default_side_budget in
    let roots_set : Bool = not (unconstrained q.roots) in
    let terminals_set : Bool = not (unconstrained q.terminals) in
    if_cases P (q.ctx 0) c (λ _.
      if_cases P (ltb max_representable_depth depth) (λ _. l)
        (λ f.
          let near : depth ≤ 127 = ltb_false→le max_representable_depth depth f in
          if_cases P
            (roots_set
              && (terminals_set && leb (rc * tc) (or_default q.pair_budget default_pair_budget)))
            (λ _. pairs depth b near refl)
            (λ _.
              if_cases P (roots_set && leb rc side) (λ _. small depth b true near refl)
                (λ _.
                  if_cases P (terminals_set && leb tc side) (λ _. small depth b false near refl)
                    (λ _. l)))))
