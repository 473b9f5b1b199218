-- ===== src/Traverse/Pair/Shortest.antt =====
-- The search from both ends finds the length of a shortest path.
use blood_trail.Prelude.{
  ℕ, ◌+◌, ◌≤◌, ◌<◌, ◌≡◌, ◌≢◌, refl, sym, ◌∙◌, true, false, List, [], ◌∷◌, Option, none, some, ◌==◌,
  ==_iff, if_cases, arith, length,
}
use mathlib.Core.Path.{subst}
use native.Mathlib.Decide.{dec_le}
use blood_trail.Snapshot.Bitset.Mask.{KindMask}
use blood_trail.Traverse.Scratch.{Scratch}
use blood_trail.Traverse.Scratch.Laws.{IsScratch}
use blood_trail.Traverse.Adjacency.{View, Edge, InRange, Mirrored}
use blood_trail.Traverse.Bfs.{bfs_from}
use blood_trail.Traverse.Bfs.Distances.{Inv-start, get-start, Distances, bfs_from-Distances}
use blood_trail.Traverse.Enumerate.Chains.{Chain}
use blood_trail.Traverse.Pair.{
  Buffers, Meet, met_enough, meet_rounds, meet_start, pair_shortest, search_again,
}
use blood_trail.Traverse.Pair.Meets.{Meets, meet_rounds-Meets, stopped, achieved}

pub Meets-start :
    (s : View) (kinds : Option KindMask) (ranged : InRange s) (r t : ℕ) (f b : Scratch)
    → r ≢ t
    → r < s.node_count
    → t < s.node_count
    → IsScratch s.node_count f
    → IsScratch s.node_count b
    → Meets s kinds ranged r t (meet_start r t f b)
Meets-start s kinds ranged r t f b ne rn tn hf hb = record {
  deep_f = 0;
  deep_b = 0;
  front = Inv-start s true kinds r ranged f rn hf;
  back = Inv-start s false kinds t ranged b tn hb;
  least = record {
    attained = λ d q. cc;
    below = λ v x y p q.
        let a : v ≡ r = ground (arith, p, get-start s true kinds r ranged f v rn hf) in
        let c : v ≡ t = ground (arith, q, get-start s false kinds t ranged b v tn hb) in
        absurd (ne (sym a ∙ c));
  };
}

-- What the length says: it is that of a shortest chain, or there is none within the bound.
abbrev pub IsShortest : View → Option KindMask → ℕ → ℕ → ℕ → Option ℕ → Type 0
IsShortest s kinds r t bound none = (es : List Edge) → Chain s true kinds r es t → bound < length es
IsShortest s kinds r t bound (some d) =
    (1 ≤ d)
    × (d ≤ bound)
    × ((es : List Edge) × Chain s true kinds r es t × (length es ≡ d))
    × ((es : List Edge) → Chain s true kinds r es t → d ≤ length es)

stopped-IsShortest :
    (s : View) (kinds : Option KindMask) (ranged : InRange s) (r t : ℕ) (mi : Mirrored s)
    (bound : ℕ) (small : bound ≤ 127) (m : Meet) (h : Meets s kinds ranged r t m)
    (few : m.levels_f + m.levels_b ≤ bound) (o : Option ℕ)
    → r ≢ t
    → met_enough bound m ≡ true
    → m.best ≡ o
    → IsShortest s kinds r t bound o
stopped-IsShortest s kinds ranged r t mi bound small m h few none ne stop e = λ es c.
    elim (dec_le (length es) bound) [
      | yes p ↦ let (d, q, _) = stopped s kinds ranged r t mi bound small m h few es stop c p in cc
      | no p ↦ omega (arith, p)
    ]
stopped-IsShortest s kinds ranged r t mi bound small m h few (some d) ne stop e =
    let (b, (es, c, l)) = achieved s kinds ranged r t mi bound small m h few d e in
    (
      some_hop es d c l,
      b,
      (es, c, l),
      λ fs c'. elim (dec_le (length fs) bound) [
        | yes p ↦
            let (d', q, le) = stopped s kinds ranged r t mi bound small m h few fs stop c' p in
            ground (arith, q, e, le)
        | no p ↦ omega (arith, p, b)
      ],
    )
  where
    some_hop : (es : List Edge) (d : ℕ) → Chain s true kinds r es t → length es ≡ d → 1 ≤ d
    some_hop [] d c l = absurd (ne c)
    some_hop (e ∷ es) d c l = omega (arith, l)

-- The length, and the distances that are left.
abbrev pub IsFound : View → Option KindMask → ℕ → ℕ → ℕ → Option ℕ × Buffers → Type 0
IsFound s kinds r t bound x =
    IsShortest s kinds r t bound x.0
    × ((d : ℕ)
        → x.0 ≡ some d
        → ((n : ℕ) × Distances s true kinds r d (x.1.f, n))
          × ((n : ℕ) × Distances s false kinds t d (x.1.t, n)))

search_again-IsFound :
    (s : View) (r t : ℕ) (kinds : Option KindMask) (bound : ℕ) (b : Buffers) (m : Meet)
    (o : Option ℕ)
    → InRange s
    → r < s.node_count
    → t < s.node_count
    → bound ≤ 127
    → IsScratch s.node_count m.sc_f
    → IsScratch s.node_count b.t
    → IsShortest s kinds r t bound o
    → IsFound s kinds r t bound (search_again s r t kinds b m o)
search_again-IsFound s r t kinds bound b m none ranged rn tn small hf ht i = (i, λ d e. cc)
search_again-IsFound s r t kinds bound b m (some x) ranged rn tn small hf ht i = (
  i,
  λ d e.
      let same : x ≡ d = cc in
      let near : d ≤ 127 = omega (arith, i.1, same, small) in
      (
        subst (λ n. (k : ℕ) × Distances s true kinds r d ((bfs_from s r true kinds n m.sc_f).0, k))
            (sym same)
            (
              (bfs_from s r true kinds d m.sc_f).1,
              bfs_from-Distances s r true kinds d m.sc_f ranged rn near hf,
            ),
        subst (λ n. (k : ℕ) × Distances s false kinds t d ((bfs_from s t false kinds n b.t).0, k))
            (sym same)
            (
              (bfs_from s t false kinds d b.t).1,
              bfs_from-Distances s t false kinds d b.t ranged tn near ht,
            ),
      ),
)

-- Between two different nodes of a view whose neighbours are all nodes of it and whose edges in are
-- its edges out from the other end, with a bound of at most 127 hops and buffers in any state, the
-- search from both ends returns the length of a shortest chain of allowed edges from the root to
-- the terminal, at least one and within the bound, or nothing where each chain is longer than the
-- bound. Where it returns a length, it leaves the distances from the root in one buffer and those
-- to the terminal in another, each up to that length.
pub pair_shortest-IsFound :
    (s : View) (r t : ℕ) (kinds : Option KindMask) (bound : ℕ) (b : Buffers)
    → InRange s
    → Mirrored s
    → r ≢ t
    → r < s.node_count
    → t < s.node_count
    → bound ≤ 127
    → IsScratch s.node_count b.f
    → IsScratch s.node_count b.t
    → IsScratch s.node_count b.tmp
    → IsFound s kinds r t bound (pair_shortest s r t kinds bound b)
unfolding pair_shortest
pair_shortest-IsFound s r t kinds bound b ranged mi ne rn tn small hf ht hb =
    let m0 = meet_start r t b.f b.tmp in
    let m = meet_rounds s kinds bound bound m0 in
    let (h, stop, few) =
      meet_rounds-Meets s kinds ranged r t bound bound m0 small (omega arith)
        (Meets-start s kinds ranged r t b.f b.tmp ne rn tn hf hb) in
    if_cases (IsFound s kinds r t bound) (r == t) (λ e. absurd (ne ((==_iff r t).0 e)))
      (λ _.
        search_again-IsFound s r t kinds bound b m m.best ranged rn tn small h.front.scratch ht
          (stopped-IsShortest s kinds ranged r t mi bound small m h few m.best ne stop refl))
