-- ===== src/Traverse/Sink.antt =====
-- internal/engine/traverse/pathsink.go: where an enumeration stores the paths it finds. The stacks
-- that a sink lends to an enumeration are emptied at each use, so they are not part of it.
pub mod Stored
pub mod Counted
mod Examples
use blood_trail.Prelude.{
  ℕ, zero, suc, ◌+◌, ◌-◌, ◌*◌, ◌%◌, ◌^◌, Bool, true, false, List, [], ◌∷◌, ◌++◌, ltb, ◌==◌,
  if◌then◌else◌, length, take, drop, ℤ,
}
use mathlib.Core.List.{reverse}

pub record FoundPath : Type 0 where
  pub nodes : List ℕ
  pub kinds : List ℤ

-- A chunk of nodes and the chunk of kinds beside it, which is made with the same capacity.
pub record Chunk : Type 0 where
  pub capacity : ℕ
  pub nodes : List ℕ
  pub kinds : List ℤ

-- The newest chunk comes first.
pub record PathSink : Type 0 where
  pub chunks : List Chunk
  pub lens : List ℕ
  pub n : ℕ
  pub chunk_cap : ℕ

abbrev pub new_sink : PathSink
new_sink = record { chunks = []; lens = []; n = 0; chunk_cap = 0 }

abbrev pub path_sink_min_chunk : ℕ
path_sink_min_chunk = 64

abbrev pub path_sink_max_chunk : ℕ
path_sink_max_chunk = 4096

abbrev pub next_size : ℕ → ℕ
next_size size =
    if size == 0
    then path_sink_min_chunk
    else if ltb size path_sink_max_chunk
    then size * 2
    else size

unfoldable pub add_chunk : ℕ → PathSink → PathSink
add_chunk need s =
    let size : ℕ = if ltb (next_size s.chunk_cap) need then need else next_size s.chunk_cap in
    record s {
      chunk_cap = size;
      chunks = record { capacity = size; nodes = []; kinds = [] } ∷ s.chunks;
    }

-- There is no chunk, or the last one has less room than that.
abbrev pub needs_chunk : ℕ → List Chunk → Bool
needs_chunk n [] = true
needs_chunk n (c ∷ cs) = ltb (c.capacity - length c.nodes) n

abbrev pub fill : List ℕ → List ℤ → List Chunk → List Chunk
fill nodes kinds [] = []
fill nodes kinds (c ∷ cs) = record c { nodes = c.nodes ++ nodes; kinds = c.kinds ++ kinds } ∷ cs

abbrev pub turned {ℓ} : {A : Type ℓ} → Bool → List A → List A
turned true xs = reverse xs
turned false xs = xs

-- Reversing the tail of a chunk in place is appending what was reversed. A length is a uint16.
unfoldable pub add_path : List ℕ → List ℤ → Bool → PathSink → PathSink
unfolding add_chunk
add_path nodes kinds reversed s =
    let room : PathSink =
      if needs_chunk (length nodes) s.chunks then add_chunk (length nodes) s else s in
    record room {
      chunks = fill (turned reversed nodes) (turned reversed kinds) room.chunks;
      lens = room.lens ++ (length nodes % 2 ^ 16) ∷ [];
      n = suc room.n;
    }

unfoldable pub reset_sink : PathSink → PathSink
reset_sink s = new_sink

-- The inner loop of `paths` on one chunk: its paths, and the lengths that are left.
abbrev pub cut : List ℕ → List ℕ → List ℤ → List FoundPath × List ℕ
cut lens [] kinds = ([], lens)
cut [] (x ∷ nodes) kinds = ([], [])
cut (l ∷ lens) (x ∷ nodes) kinds =
    let rest = cut lens (drop l (x ∷ nodes)) (drop (l - 1) kinds) in
    (record { nodes = take l (x ∷ nodes); kinds = take (l - 1) kinds } ∷ rest.0, rest.1)

abbrev pub cut_chunks : List ℕ → List Chunk → List FoundPath
cut_chunks lens [] = []
cut_chunks lens (c ∷ cs) = let r = cut lens c.nodes c.kinds in r.0 ++ cut_chunks r.1 cs

-- Oldest first, before those that follow.
abbrev pub oldest_first : List Chunk → List Chunk → List Chunk
oldest_first [] after = after
oldest_first (c ∷ cs) after = oldest_first cs (c ∷ after)

unfoldable pub paths : PathSink → List FoundPath
paths s = if s.n == 0 then [] else cut_chunks s.lens (oldest_first s.chunks [])
