-- ===== src/Traverse/Sink/Counted.antt =====
-- A sink never returns more paths than it has lengths.
use blood_trail.Prelude.{
  ℕ, ◌+◌, ◌-◌, ◌≤◌, List, [], ◌∷◌, length, length-append, ◌==◌, if_cases, drop, ℤ, arith,
}
use blood_trail.Traverse.Sink.{Chunk, PathSink, FoundPath, cut, cut_chunks, oldest_first, paths}
use blood_trail.Traverse.Query.{nodes}

pub cut-length :
    (lens nodes : List ℕ) (kinds : List ℤ)
    → length (cut lens nodes kinds).0 + length (cut lens nodes kinds).1 ≤ length lens
cut-length lens [] kinds = omega arith
cut-length [] (x ∷ nodes) kinds = omega arith
cut-length (l ∷ lens) (x ∷ nodes) kinds =
    omega (arith, cut-length lens (drop l (x ∷ nodes)) (drop (l - 1) kinds))

pub cut_chunks-length :
    (lens : List ℕ) (cs : List Chunk) → length (cut_chunks lens cs) ≤ length lens
cut_chunks-length lens [] = omega arith
cut_chunks-length lens (c ∷ cs) = omega (
  arith,
  length-append (cut lens c.nodes c.kinds).0 (cut_chunks (cut lens c.nodes c.kinds).1 cs),
  cut-length lens c.nodes c.kinds,
  cut_chunks-length (cut lens c.nodes c.kinds).1 cs,
)

pub paths-length : (s : PathSink) → length (paths s) ≤ length s.lens
unfolding paths
paths-length s =
    if_cases (λ (x : List FoundPath). length x ≤ length s.lens) (s.n == 0) (λ _. omega arith)
      (λ _. cut_chunks-length s.lens (oldest_first s.chunks []))
