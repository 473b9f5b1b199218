-- ===== src/Traverse/Pair/Results.antt =====
-- What the search for one pair leaves in the sink.
use blood_trail.Prelude.{
  ℕ, ◌+◌, ◌%◌, ◌^◌, ◌≤◌, ◌<◌, ◌≡◌, ◌≢◌, refl, sym, ap, ◌∙◌, ◌↔◌, inl, inr, Bool, true, false, List,
  [], ◌∷◌, Option, none, some, length, append-nil, map, Among, arith, Bool-cases, Option-cases,
  ◌==◌,
}
use mathlib.Core.Path.{subst}
use blood_trail.Snapshot.Bitset.Mask.{KindMask}
use blood_trail.Traverse.Scratch.{Scratch, get}
use blood_trail.Traverse.Scratch.Laws.{IsScratch}
use blood_trail.Traverse.Adjacency.{View, Edge, neighbours, InRange, Mirrored, Degree}
use blood_trail.Traverse.Sink.{FoundPath}
use blood_trail.Traverse.Sink.Stored.{Holds}
use blood_trail.Traverse.Budget.{Store}
use blood_trail.Traverse.Machine.{skip, arrive, onward, Verdict, open_, run}
use blood_trail.Traverse.Machine.Walks.{walks, steps, along, feed}
use blood_trail.Traverse.Machine.Run.{run-walks}
use blood_trail.Traverse.Machine.Fuel.{tree, tree-le, steps-tree}
use blood_trail.Traverse.Machine.Prefix.{Prefix, store_of, feed-Prefix}
use blood_trail.Traverse.Enumerate.Chains.{Chain, Distances-Labels}
use blood_trail.Traverse.Enumerate.Shortest.{edges_of}
use blood_trail.Traverse.Enumerate.Results.{no_error, settle-some, All-along}
use blood_trail.Traverse.Pair.{
  Buffers, on_both, pair_turn, pair_enumerate, pair_found, pair_paths, pair_shortest,
}
use blood_trail.Traverse.Pair.Shortest.{IsFound, pair_shortest-IsFound}
use blood_trail.Traverse.Pair.Enumerated.{falls, walks-Chain, Chain-walks, root-On}

on_both-length :
    (kinds : Option KindMask) (f t : Scratch) (d next : ℕ) (es : List Edge)
    → length (on_both kinds f t d next es) ≤ length es
unfolding on_both
on_both-length kinds f t d next [] = omega arith
on_both-length kinds f t d next ((w, k) ∷ es) =
    let ih = on_both-length kinds f t d next es in ground (arith, ih)

pub turn-length :
    (s : View) (t d : ℕ) (kinds : Option KindMask) (f b : Scratch) (w : ℕ)
    → Degree s w
    → (u len : ℕ) (es : List Edge) → pair_turn s t d kinds f b u len ≡ onward es
    → length es ≤ w
unfolding pair_turn
turn-length s t d kinds f b w deg u len es e = elim (Bool-cases (u == t)) [
  | inl a ↦ let q : arrive ≡ onward es = rw (a) at e in cc
  | inr a ↦ elim (Option-cases (get f u)) [
    | inl g ↦ let q : skip ≡ onward es = rw (a, g) at e in cc
    | inr (du, g) ↦
        let q = ap edges_of (rw (a, g) at e) in
        subst (λ x. length x ≤ w) q
          (omega
            (arith, on_both-length kinds f b d ((du + 1) % 256) (neighbours s true u), deg true u))
  ]
]

-- A shortest chain from r to t, within the bound.
abbrev pub ShortestChain : View → Option KindMask → ℕ → ℕ → ℕ → List Edge → Type 0
ShortestChain s kinds r t bound es =
    Chain s true kinds r es t
    × (length es ≤ bound)
    × ((fs : List Edge) → Chain s true kinds r fs t → length es ≤ length fs)

-- The store holds a prefix of the shortest paths, or all.
abbrev pub Stored :
    View → Option KindMask → ℕ → ℕ → ℕ → ℕ → List FoundPath → Option (Store × Bool) → Type 0
Stored s kinds r t bound c old o =
    (found : List (List Edge)) × (v : Verdict) × (o ≡ some (store_of v, no_error v))
    × ((es : List Edge) → Among es found ↔ ShortestChain s kinds r t bound es)
    × Prefix c false old (map (along (r ∷ []) []) found) v

found-Stored :
    (fuel : ℕ) (s : View) (r t : ℕ) (kinds : Option KindMask) (bound c w : ℕ) (st : Store)
    (old : List FoundPath) (o : Option ℕ) (b : Buffers)
    → Mirrored s
    → bound ≤ 127
    → Degree s w
    → tree w bound ≤ fuel
    → Holds st.sink old
    → IsFound s kinds r t bound (o, b)
    → Stored s kinds r t bound c old (pair_found fuel s r t kinds c b st o)
unfolding pair_enumerate run
found-Stored fuel s r t kinds bound c w st old none b mi small deg enough hs (i, _) = (
  [],
  open_ st,
  refl,
  λ es. (λ m. elim m [ ], λ (q, p, _). absurd (omega (arith, i es q, p))),
  ([], [], refl, subst (Holds st.sink) (sym (append-nil old)) hs, refl),
)
found-Stored fuel s r t kinds bound c w st old (some d) b mi small deg enough hs
      ((one, le, (es, ch, len), least), more) =
    let ((n, df), (k, db)) = more d refl in
    let near : d ≤ 127 = omega (arith, le, small) in
    let l = Distances-Labels s true kinds t d (b.t, k) mi db in
    let on = root-On s kinds r t d n b.f b.t near df l least es ch len in
    let turn = pair_turn s t d kinds b.f b.t in
    let found = walks turn d 1 r in
    let xs = map (along (r ∷ []) []) found in
    let fuel' : steps turn d 1 r ≤ fuel = omega (
      arith,
      enough,
      tree-le w d bound le,
      steps-tree turn w (turn-length s t d kinds b.f b.t w deg) d 1 r,
    ) in
    let far : d < 2 ^ 15 = omega (arith, near) in
    let sound = λ (fs : List Edge) (m : Among fs found).
      walks-Chain s kinds r t d n b.f b.t near df l least d r 1 fs on m in
    (
      found,
      feed c false xs st,
      run-walks turn c false d r fuel st (omega (arith, near))
            (falls s kinds r t d n b.f b.t near df l least d r 1 on) fuel'
          ∙ settle-some (feed c false xs st),
      λ fs. (
        λ m.
            let (q, z) = sound fs m in
            (q, omega (arith, z, le), λ gs g. omega (arith, z, least gs g)),
        λ (q, p, short).
            Chain-walks s kinds r t d n b.f b.t near df l least d r 1 fs on q
              (omega (arith, short es ch, len, least fs q)),
      ),
      feed-Prefix c false old xs st (All-along r d found far (λ fs m. (sound fs m).1)) hs,
    )

-- Between two different nodes of a view whose neighbours are all nodes of it, at most w to a node,
-- and whose edges in are its edges out from the other end, with a bound of at most 127 hops, buffers
-- in any state, a sink that holds some paths, and fuel for a tree of that height and degree: the
-- search for the pair ends, and the sink then holds those paths and after them a prefix of a list;
-- the list is the path along each shortest chain of allowed edges from the root to the terminal
-- within the bound, and no other; and what is left of it is empty, or the sink has as many paths as
-- the cap, or there is an error and the budget has no room for the next path.
pub pair_paths-Stored :
    (fuel : ℕ) (s : View) (r t : ℕ) (kinds : Option KindMask) (bound c w : ℕ) (b : Buffers)
    (st : Store) (old : List FoundPath)
    → InRange s
    → Mirrored s
    → r ≢ t
    → r < s.node_count
    → t < s.node_count
    → bound ≤ 127
    → IsScratch s.node_count b.f
    → IsScratch s.node_count b.t
    → IsScratch s.node_count b.tmp
    → Degree s w
    → tree w bound ≤ fuel
    → Holds st.sink old
    → Stored s kinds r t bound c old (pair_paths fuel s r t kinds bound c b st).0
unfolding pair_paths
pair_paths-Stored fuel s r t kinds bound c w b st old ranged mi ne rn tn small hf ht hb deg enough
      hs =
    let p = pair_shortest s r t kinds bound b in
    found-Stored fuel s r t kinds bound c w st old p.0 p.1 mi small deg enough hs
      (pair_shortest-IsFound s r t kinds bound b ranged mi ne rn tn small hf ht hb)
