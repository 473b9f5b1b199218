-- ===== src/Traverse/Query.antt =====
-- internal/engine/traverse/traverse.go: the endpoints and the parameters of a query. A limit, a
-- depth or a budget is an int of which only the positive values count; 0 stands for the others.
use blood_trail.Prelude.{
  ℕ, zero, suc, ◌+◌, ◌*◌, Bool, true, false, not, ◌&&◌, List, [], ◌∷◌, ◌++◌, Option, none, some,
  map, ltb, leb, ◌==◌, if◌then◌else◌, length, get_or, search, bit_and, ◌^◌,
}
use blood_trail.Snapshot.Bitset.{Bitset}
use blood_trail.Snapshot.Bitset
use blood_trail.Snapshot.Bitset.Mask.{KindMask}
use blood_trail.Traverse.Adjacency.{View}

pub data Mode : Type 0 where
  all_ : Mode
  one : Mode
  all_per_pair : Mode

-- `IDs` and `Bits`, none for nil.
pub record Endpoint : Type 0 where
  pub ids : Option (List ℕ)
  pub bits : Option Bitset

unfoldable pub unconstrained : Endpoint → Bool
unconstrained e = elim e.ids [
  | some _ ↦ false
  | none ↦ elim e.bits [ some _ ↦ false | none ↦ true ]
]

unfoldable pub count : Endpoint → ℕ → ℕ
count e total = elim e.ids [
  | some ids ↦ length ids
  | none ↦ elim e.bits [ some b ↦ b.count | none ↦ total ]
]

abbrev pub filter : (ℕ → Bool) → List ℕ → List ℕ
filter p [] = []
filter p (x ∷ xs) = if p x then x ∷ filter p xs else filter p xs

abbrev pub range : ℕ → ℕ → List ℕ
range i zero = []
range i (suc n) = i ∷ range (suc i) n

-- `Bitset.Iterate`: taking the lowest bit that is left goes through the bits of a word upwards.
abbrev pub set_bits : ℕ → List ℕ → List ℕ
set_bits i [] = []
set_bits i (w ∷ ws) =
    map (λ tz. i * 64 + tz) (filter (λ tz. not (bit_and w (2 ^ tz) == 0)) (range 0 64))
    ++ set_bits (suc i) ws

-- The nodes that `Iterate` calls its function on, in order.
unfoldable pub nodes : Endpoint → View → List ℕ
nodes e s = elim e.ids [
  | some ids ↦ ids
  | none ↦ elim e.bits [
    | some b ↦ set_bits 0 b.words
    | none ↦ filter (λ i. if s.overlay then s.alive i else true) (range 0 s.node_count)
  ]
]

unfoldable pub has : Endpoint → ℕ → Bool
has e id = elim e.ids [
  | some ids ↦
      let i = search (length ids) (λ i. leb id (get_or ids i 0)) in
      ltb i (length ids) && get_or ids i 0 == id
  | none ↦ elim e.bits [ some b ↦ Bitset.has b id | none ↦ true ]
]

-- A node of both endpoints with an edge out of it.
abbrev pub conflicts : View → Endpoint → ℕ → Bool
conflicts s big id =
    if has big id
    then (elim (if s.overlay then s.out_edges id else s.base_out id) [ [] ↦ false | _ ∷ _ ↦ true ])
    else false

abbrev pub any : (ℕ → Bool) → List ℕ → Bool
any p [] = false
any p (x ∷ xs) = if p x then true else any p xs

unfoldable pub self_endpoint_conflict : View → Endpoint → Endpoint → Bool
self_endpoint_conflict s roots terminals =
    if ltb (count terminals s.node_count) (count roots s.node_count)
    then any (conflicts s roots) (nodes terminals s)
    else any (conflicts s terminals) (nodes roots s)

-- `ctx n` is whether the context is found done when it is asked for the nth time.
pub record Query : Type 0 where
  pub roots : Endpoint
  pub terminals : Endpoint
  pub kinds : Option KindMask
  pub mode : Mode
  pub exclude_self : Bool
  pub max_depth : ℕ
  pub limit : ℕ
  pub memory_limit : ℕ
  pub ctx : ℕ → Bool
  pub pair_budget : ℕ
  pub side_budget : ℕ

abbrev pub is_all : Mode → Bool
is_all all_ = true
is_all one = false
is_all all_per_pair = false

abbrev pub is_one : Mode → Bool
is_one all_ = false
is_one one = true
is_one all_per_pair = false
