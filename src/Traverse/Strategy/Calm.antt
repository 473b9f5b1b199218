-- ===== src/Traverse/Strategy/Calm.antt =====
-- Without a memory limit, with a context that is never done and with fuel, no pair causes a fault.
use blood_trail.Prelude.{
  ℕ, suc, ◌≤◌, ◌<◌, ◌≡◌, refl, sym, ap, ◌∙◌, Bool, true, false, not, ◌&&◌, List, [], ◌∷◌, Option,
  none, some, ltb, ◌==◌, if◌then◌else◌, if_cases, All, arith,
}
use mathlib.Core.Path.{subst}
use blood_trail.Traverse.Scratch.{Scratch, get}
use blood_trail.Traverse.Adjacency.{View, InRange, Mirrored, Degree}
use blood_trail.Traverse.Bfs.Distances.{Distances}
use blood_trail.Traverse.Budget.{Store, ShortestLevel, admit, final, path_cap, reset_budget}
use blood_trail.Traverse.Machine.Fuel.{tree}
use blood_trail.Traverse.Enumerate.{enumerate}
use blood_trail.Traverse.Pair.{pair_shortest, pair_found, pair_paths}
use blood_trail.Traverse.Query.{Query, is_all, is_one}
use blood_trail.Traverse.Strategy.{
  Progress, Next, each_of, cancel_err, cancel_step, stored, under_cap, take_pair, paths_under_cap,
  pair_step, search_depth, int_of, merge_reached, merge_pair, unless_done,
}
use blood_trail.Traverse.Strategy.Free.{Free, Fine, enumerate-Fine}
use blood_trail.Traverse.Strategy.PairFree.{Sized, pair_shortest-Sized, pair_found-Fine}

-- What holds of each item, for the steps over a list.
pub each_of-All {ℓ κ} :
    {A : Type ℓ} (Q : A → Type κ) (P : Progress → Type 0) (f : Progress → A → Next)
    → ((x : Progress) (a : A) → Q a → P x → P (f x a).0)
    → (xs : List A) (x : Progress) → All Q xs
    → P x
    → P (each_of f xs x).0
each_of-All Q P f k [] x q h = h
each_of-All Q P f k (a ∷ xs) x q h =
    if_cases (λ (y : Next). P y.0) (f x a).1
      (λ _. each_of-All Q P f k xs (f x a).0 q.1 (k x a q.0 h)) (λ _. k x a q.0 h)

module _ (fuel : ℕ) (s : View) (q : Query) (w : ℕ) (ranged : InRange s) (mirrored : Mirrored s)
    (deg : Degree s w) (enough : tree w 127 ≤ fuel) (never : (n : ℕ) → q.ctx n ≡ false) where
  abbrev pub Node : ℕ → Type 0
  Node u = u < s.node_count

  -- No fault so far, and nothing that would cause one.
  pub record Calm (x : Progress) : Type 0 where
    pub no_fault : x.fault ≡ none
    pub free : Free x.store
    pub sized : Sized s.node_count x.buffers

  stored-Calm : (o : Option (Store × Bool)) (x : Progress) → Calm x → Fine o → Calm (stored o x).0
  stored-Calm none x h (r, e, c) = cc
  stored-Calm (some (st, ok)) x h (r, e, (free, fine)) =
      let same : r ≡ (st, ok) = cc in
      let ok' : ok ≡ true = sym (ap (λ p. p.1) same) ∙ fine in
      let free' : Free st = subst (λ p. Free p.0) same free in
      rw (ok') (record { no_fault = h.no_fault; free = free'; sized = h.sized })

  abbrev FineFind : (ℕ → Store → Option (Store × Bool)) → Type 0
  FineFind find = (c : ℕ) (st : Store) → Free st → Fine (find c st)

  under_cap-Calm :
      (o : Option ℕ) (go_on : Bool) (find : ℕ → Store → Option (Store × Bool)) (x : Progress)
      → FineFind find
      → Calm x
      → Calm (under_cap o go_on find x).0
  under_cap-Calm none go_on find x k h = h
  under_cap-Calm (some c) go_on find x k h = stored-Calm (find c x.store) x h (k c x.store h.free)

  admit-Free : (l : ShortestLevel) (d : Option ℕ) (st : Store) → Free st → Free (admit l d st).1
  unfolding admit reset_budget
  admit-Free l none st h = h
  admit-Free l (some d) st h =
      if_cases (λ (a : ShortestLevel × Store × Bool). Free a.1) (ltb d 1) (λ _. h)
        (λ _.
          if_cases (λ (a : ShortestLevel × Store × Bool). Free a.1)
            (if l.best == 0 then true else ltb d l.best) (λ _. h) (λ _. h))

  take_pair-Calm :
      (dist : Option ℕ) (find : ℕ → Store → Option (Store × Bool)) (x : Progress)
      → FineFind find
      → Calm x
      → Calm (take_pair q dist find x).0
  unfolding take_pair
  take_pair-Calm dist find x k h =
      let a = admit x.level dist x.store in
      let y : Progress = record x { level = a.0; store = a.1 } in
      let h' : Calm y = record {
        no_fault = h.no_fault;
        free = admit-Free x.level dist x.store h.free;
        sized = h.sized;
      } in
      if_cases (λ (n : Next). Calm n.0) (is_all q.mode)
        (λ _.
          if_cases (λ (n : Next). Calm n.0) a.2
            (λ _.
              under_cap-Calm (path_cap q.limit y.store.sink.n false) (not (final y.level)) find y k
                h')
            (λ _. h'))
        (λ _. under_cap-Calm (path_cap q.limit x.store.sink.n (is_one q.mode)) false find x k h)

  paths_under_cap-Calm :
      (max_depth r t : ℕ) (x : Progress) (o : Option ℕ)
      → max_depth ≤ 127
      → Node r
      → Node t
      → Calm x
      → Calm (paths_under_cap fuel s q max_depth r t x o).0
  unfolding pair_paths
  paths_under_cap-Calm max_depth r t x none small rn tn h = h
  paths_under_cap-Calm max_depth r t x (some c) small rn tn h =
      let p = pair_shortest s r t q.kinds max_depth x.buffers in
      stored-Calm (pair_found fuel s r t q.kinds c p.1 x.store p.0) (record x { buffers = p.1 })
        (record {
          no_fault = h.no_fault;
          free = h.free;
          sized = pair_shortest-Sized s r t q.kinds max_depth x.buffers ranged rn tn small h.sized;
        })
        (pair_found-Fine fuel s r t q.kinds max_depth c w x.store x.buffers ranged mirrored rn tn
          small h.sized deg enough h.free)

  search_depth-le :
      (max_depth : ℕ) (l : ShortestLevel) → max_depth ≤ 127 → search_depth max_depth l ≤ 127
  search_depth-le max_depth l h = ground (arith, h)

  pub pair_step-Calm :
      (max_depth r : ℕ) (x : Progress) (t : ℕ)
      → max_depth ≤ 127
      → Node r
      → Node t
      → Calm x
      → Calm (pair_step fuel s q max_depth r x t).0
  unfolding pair_step cancel_err
  pair_step-Calm max_depth r x t small rn tn h =
      let y : Progress = record x { asked = suc x.asked } in
      let g : Calm y = record { no_fault = h.no_fault; free = h.free; sized = h.sized } in
      let d = search_depth max_depth y.level in
      let near = search_depth-le max_depth y.level small in
      let p = pair_shortest s r t q.kinds d y.buffers in
      let g' : Calm (record y { buffers = p.1 }) = record {
        no_fault = h.no_fault;
        free = h.free;
        sized = pair_shortest-Sized s r t q.kinds d y.buffers ranged rn tn near h.sized;
      } in
      if_cases (λ (n : Next). Calm n.0) (q.ctx x.asked) (λ e. let f = never x.asked in cc)
        (λ _.
          if_cases (λ (n : Next). Calm n.0) (q.exclude_self && r == t) (λ _. g)
            (λ _.
              if_cases (λ (n : Next). Calm n.0) (is_all q.mode)
                (λ _.
                  take_pair-Calm p.0 (λ cap st. pair_found fuel s r t q.kinds cap p.1 st p.0)
                    (record y { buffers = p.1 })
                    (λ c st f.
                      pair_found-Fine fuel s r t q.kinds d c w st y.buffers ranged mirrored rn tn
                        near h.sized deg enough f)
                    g')
                (λ _. paths_under_cap-Calm max_depth r t y _ small rn tn g)))

  -- What a search from the small side left.
  unfoldable pub Searched : Bool → ℕ → ℕ × Scratch → Type 0
  Searched forward bound (e, sc) = (n : ℕ) × Distances s forward q.kinds e bound (sc, n)

  merge_reached-Calm :
      (forward : Bool) (sc : Scratch) (u : ℕ) (x : Progress) (o : Option ℕ)
      → get sc u ≡ o
      → ((d : ℕ) → o ≡ some d → d ≤ 127)
      → Calm x
      → Calm (merge_reached fuel s q forward sc u x o).0
  merge_reached-Calm forward sc u x none e b h = h
  merge_reached-Calm forward sc u x (some d) e b h =
      take_pair-Calm (int_of d) (λ cap st. enumerate fuel s u sc q.kinds cap forward st) x
        (λ c st f. enumerate-Fine fuel s u d c w sc q.kinds forward st e (b d refl) deg enough f) h

  pub merge_pair-Calm :
      (forward : Bool) (bound : ℕ) (res : ℕ × Scratch) (u : ℕ) (x : Progress)
      → bound ≤ 127
      → Searched (not forward) bound res
      → Calm x
      → Calm (merge_pair fuel s q forward res.1 res.0 u x).0
  unfolding merge_pair Searched
  merge_pair-Calm forward bound (e, sc) u x small (n, df) h =
      if_cases (λ (m : Next). Calm m.0) (q.exclude_self && e == u) (λ _. h)
        (λ _.
          merge_reached-Calm forward sc u x (get sc u) refl
            (λ d g. omega (arith, (df.sound u d g).0, small)) h)

  pub unless_done-Calm :
      (x : Progress) (go : Progress → Next)
      → Calm x
      → ((y : Progress) → Calm y → Calm (go y).0)
      → Calm (unless_done (cancel_step q.ctx x) go).0
  unfolding cancel_step cancel_err
  unless_done-Calm x go h k =
      let again : (n : ℕ) → Calm (record x { unchecked = n }) =
        λ n. record { no_fault = h.no_fault; free = h.free; sized = h.sized } in
      if_cases (λ (c : Progress × Bool). Calm (unless_done c go).0) (ltb (suc x.unchecked) 1024)
        (λ _. k _ (again (suc x.unchecked)))
        (λ _.
          rw (never x.asked)
            (k _ (record { no_fault = h.no_fault; free = h.free; sized = h.sized })))
