-- ===== src/Traverse/Pair.antt =====
-- internal/engine/traverse/bfs.go, pairShortest, pairPaths and pairEnumerate: the shortest paths
-- between one root and one terminal. The bound on the depth keeps distances below 128, so that the
-- `int` of an int8 is the pattern itself, but where the code subtracts.
pub mod Route
pub mod Enumerated
pub mod Results
mod Examples
pub mod Level
pub mod Chains
pub mod Stops
pub mod Meets
pub mod Shortest
use blood_trail.Prelude.{
  ℕ, zero, suc, ◌+◌, ◌*◌, ◌%◌, Bool, true, false, ◌&&◌, List, [], ◌∷◌, ◌++◌, Option, none, some,
  ltb, leb, ◌==◌, if◌then◌else◌, length, ℤ, pos,
}
use blood_trail.Snapshot.Bitset.Mask.{KindMask}
use blood_trail.Traverse.Scratch.{Scratch, reset, get, put, int8}
use blood_trail.Traverse.Adjacency.{View, Edge, neighbours, allowed}
use blood_trail.Traverse.Bfs.{bfs_from}
use blood_trail.Traverse.Budget.{Store}
use blood_trail.Traverse.Machine.{Turn, skip, arrive, onward, run, start}

-- scF, scT and scTmp.
pub record Buffers : Type 0 where
  pub f : Scratch
  pub t : Scratch
  pub tmp : Scratch

-- A side of the search in a level: its buffer, the frontier that is being built, and D, which is
-- none for -1.
pub record Side : Type 0 where
  pub sc : Scratch
  pub next : List ℕ
  pub best : Option ℕ

-- `D < 0 || cand < D`
abbrev pub lower : ℕ → Option ℕ → Option ℕ
lower c none = some c
lower c (some d) = if ltb c d then some c else some d

-- D after a node that the other side saw at that distance, if it did.
abbrev pub met_best : ℕ → Option ℕ → Option ℕ → Option ℕ
met_best nd none best = best
met_best nd (some o) best = lower (nd + o) best

-- A node that this side had not seen.
unfoldable pub meet_new : ℕ → Scratch → Side → ℕ → Side
meet_new levels other x w = record {
  sc = put x.sc w (int8 (levels + 1));
  next = x.next ++ w ∷ [];
  best = met_best (int8 (levels + 1)) (get other w) x.best;
}

-- The closure `visit` of a level, with the buffer of the other side.
unfoldable pub meet_visit : Option KindMask → ℕ → Scratch → Side → Edge → Side
meet_visit kinds levels other x (w, k) =
    if allowed kinds k
    then (elim (get x.sc w) [ some _ ↦ x | none ↦ meet_new levels other x w ])
    else x

unfoldable pub meet_visit_all : Option KindMask → ℕ → Scratch → Side → List Edge → Side
meet_visit_all kinds levels other x [] = x
meet_visit_all kinds levels other x (e ∷ es) =
    meet_visit_all kinds levels other (meet_visit kinds levels other x e) es

unfoldable pub meet_expand : View → Bool → Option KindMask → ℕ → Scratch → Side → List ℕ → Side
meet_expand s forward kinds levels other x [] = x
meet_expand s forward kinds levels other x (u ∷ us) =
    meet_expand s forward kinds levels other
      (meet_visit_all kinds levels other x (neighbours s forward u)) us

pub record Meet : Type 0 where
  pub sc_f : Scratch
  pub sc_b : Scratch
  pub front_f : List ℕ
  pub front_b : List ℕ
  pub levels_f : ℕ
  pub levels_b : ℕ
  pub best : Option ℕ

-- One level, of the smaller frontier.
unfoldable pub meet_level : View → Option KindMask → Meet → Meet
meet_level s kinds m =
    if leb (length m.front_f) (length m.front_b)
    then (let x : Side =
          meet_expand s true kinds m.levels_f m.sc_b
            (record { sc = m.sc_f; next = []; best = m.best }) m.front_f in
        record m { sc_f = x.sc; best = x.best; levels_f = suc m.levels_f; front_f = x.next })
    else (let x : Side =
          meet_expand s false kinds m.levels_b m.sc_f
            (record { sc = m.sc_b; next = []; best = m.best }) m.front_b in
        record m { sc_b = x.sc; best = x.best; levels_b = suc m.levels_b; front_b = x.next })

abbrev pub meet_limit : ℕ → Option ℕ → ℕ
meet_limit max_depth none = max_depth
meet_limit max_depth (some d) = if ltb d max_depth then d else max_depth

abbrev pub none_left : List ℕ → Bool
none_left [] = true
none_left (_ ∷ _) = false

-- The loop stops.
unfoldable pub met_enough : ℕ → Meet → Bool
met_enough max_depth m =
    if none_left m.front_f
    then true
    else if none_left m.front_b
    then true
    else leb (meet_limit max_depth m.best) (m.levels_f + m.levels_b)

-- Each round takes a level, and at maxDepth levels the loop stops, so that maxDepth rounds are
-- enough.
unfoldable pub meet_rounds : View → Option KindMask → ℕ → ℕ → Meet → Meet
meet_rounds s kinds max_depth zero m = m
meet_rounds s kinds max_depth (suc rounds) m =
    let rest = meet_rounds s kinds max_depth rounds (meet_level s kinds m) in
    if met_enough max_depth m then m else rest

abbrev pub meet_start : ℕ → ℕ → Scratch → Scratch → Meet
meet_start r t sc_f sc_b = record {
  sc_f = put (reset sc_f) r 0;
  sc_b = put (reset sc_b) t 0;
  front_f = r ∷ [];
  front_b = t ∷ [];
  levels_f = 0;
  levels_b = 0;
  best = none;
}

-- Once D is known, a search from each end up to D, which writes over one buffer of the first
-- search.
abbrev pub search_again :
    View → ℕ → ℕ → Option KindMask → Buffers → Meet → Option ℕ → Option ℕ × Buffers
search_again s r t kinds b m none = (none, record b { f = m.sc_f; tmp = m.sc_b })
search_again s r t kinds b m (some d) = (
  some d,
  record {
    f = (bfs_from s r true kinds d m.sc_f).0;
    t = (bfs_from s t false kinds d b.t).0;
    tmp = m.sc_b;
  },
)

-- The length of a shortest path, none for -1, and the buffers.
unfoldable pub pair_shortest : View → ℕ → ℕ → Option KindMask → ℕ → Buffers → Option ℕ × Buffers
pair_shortest s r t kinds max_depth b =
    let m = meet_rounds s kinds max_depth max_depth (meet_start r t b.f b.tmp) in
    if r == t then (none, b) else search_again s r t kinds b m m.best

-- `int(dtw) == D-int(dw)`, on signed bytes: each side is 256 more, and dw is moved over.
abbrev pub on_route : ℕ → ℕ → ℕ → Bool
on_route dw dtw d = ((dtw + 128) % 256 + (dw + 128) % 256) == (d + 256)

-- The calls of `visit` that push: an allowed edge to a node one hop on, from which the rest of the
-- D hops leads to the terminal.
unfoldable pub on_both : Option KindMask → Scratch → Scratch → ℕ → ℕ → List Edge → List Edge
on_both kinds sc_f sc_t d next [] = []
on_both kinds sc_f sc_t d next ((w, k) ∷ es) =
    let rest = on_both kinds sc_f sc_t d next es in
    if allowed kinds k
    then (elim (get sc_f w) [
      | none ↦ rest
      | some dw ↦
          if dw == next
          then (elim (get sc_t w) [
            | none ↦ rest
            | some dtw ↦ if on_route dw dtw d then (w, k) ∷ rest else rest
          ])
          else rest
    ])
    else rest

unfoldable pub pair_turn : View → ℕ → ℕ → Option KindMask → Scratch → Scratch → ℕ → ℕ → Turn
pair_turn s t d kinds sc_f sc_t u len = if u == t then arrive else (elim (get sc_f u) [
  | none ↦ skip
  | some du ↦ onward (on_both kinds sc_f sc_t d ((du + 1) % 256) (neighbours s true u))
])

unfoldable pub pair_enumerate :
    ℕ → View → ℕ → ℕ → ℕ → Option KindMask → ℕ → Scratch → Scratch → Store → Option (Store × Bool)
pair_enumerate fuel s r t d kinds cap sc_f sc_t st =
    run (pair_turn s t d kinds sc_f sc_t) cap false fuel
      (record { node = r; kind = pos 0; depth = 0 } ∷ []) (start r st)

-- Where there is a path at all.
abbrev pub pair_found :
    ℕ → View → ℕ → ℕ → Option KindMask → ℕ → Buffers → Store → Option ℕ → Option (Store × Bool)
pair_found fuel s r t kinds cap b st none = some (st, true)
pair_found fuel s r t kinds cap b st (some d) = pair_enumerate fuel s r t d kinds cap b.f b.t st

-- The store and whether there was no error, and the buffers.
unfoldable pub pair_paths :
    ℕ → View → ℕ → ℕ → Option KindMask → ℕ → ℕ → Buffers → Store → Option (Store × Bool) × Buffers
pair_paths fuel s r t kinds max_depth cap b st =
    let p = pair_shortest s r t kinds max_depth b in
    (pair_found fuel s r t kinds cap p.1 st p.0, p.1)
