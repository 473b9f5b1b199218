-- ===== src/Traverse/Sink/Stored.antt =====
-- A sink is a list of paths: what was added is what `paths` returns, in order.
use blood_trail.Prelude.{
  ℕ, suc, ◌+◌, ◌-◌, ◌%◌, ◌^◌, ◌≤◌, ◌<◌, ◌≡◌, refl, sym, ap, ◌∙◌, Bool, true, false, List, [], ◌∷◌,
  ◌++◌, append-nil, append_assoc, ◌==◌, if◌then◌else◌, if_cases, length, length-append, take, drop,
  ℤ, arith, All, map,
}
use mathlib.Core.Path.{subst}
use mathlib.Core.List.{reverse, reverse_aux}
use blood_trail.Traverse.Sink.{
  FoundPath, Chunk, PathSink, new_sink, add_chunk, needs_chunk, fill, turned, add_path, reset_sink,
  cut, cut_chunks, oldest_first, paths,
}

-- A path of at least one node, as many nodes as a uint16 holds, and a kind for each hop.
pub record IsPath (p : FoundPath) : Type 0 where
  pub some_node : 1 ≤ length p.nodes
  pub short : length p.nodes < 2 ^ 16
  pub kind_each : length p.nodes ≡ suc (length p.kinds)

take-append {ℓ} : {A : Type ℓ} (xs ys : List A) → take (length xs) (xs ++ ys) ≡ xs
take-append [] ys = refl
take-append (x ∷ xs) ys = ap (λ r. x ∷ r) (take-append xs ys)

drop-append {ℓ} : {A : Type ℓ} (xs ys : List A) → drop (length xs) (xs ++ ys) ≡ ys
drop-append [] ys = refl
drop-append (x ∷ xs) ys = drop-append xs ys

-- The nodes and kinds of a chunk are those of the paths, one after the other.
pub data Cut : List ℕ → List ℕ → List ℤ → List FoundPath → Type 0 where
  cut_none : Cut [] [] [] []
  cut_path :
      {lens nodes : List ℕ} {kinds : List ℤ} {ps : List FoundPath} (p : FoundPath)
      → IsPath p
      → Cut lens nodes kinds ps
      → Cut (length p.nodes ∷ lens) (p.nodes ++ nodes) (p.kinds ++ kinds) (p ∷ ps)

cut-append :
    (ns : List ℕ) (ks : List ℤ) (lens nodes : List ℕ) (kinds : List ℤ)
    → length ns ≡ suc (length ks)
    → cut (length ns ∷ lens) (ns ++ nodes) (ks ++ kinds)
      ≡ (record { nodes = ns; kinds = ks } ∷ (cut lens nodes kinds).0, (cut lens nodes kinds).1)
cut-append [] ks lens nodes kinds h = absurd (omega (arith, h))
cut-append (x ∷ xs) ks lens nodes kinds h =
    let e : length xs ≡ length ks = omega (arith, h) in
    let p : suc (length ks) - 1 ≡ length ks = omega arith in
    rw
      (take-append xs nodes, drop-append xs nodes, e, p, take-append ks kinds, drop-append ks kinds)
      refl

cut-Cut :
    {lens nodes : List ℕ} {kinds : List ℤ} {ps : List FoundPath} (more : List ℕ)
    → Cut lens nodes kinds ps
    → cut (lens ++ more) nodes kinds ≡ (ps, more)
cut-Cut more cut_none = refl
cut-Cut more (cut_path p v c) =
    rw (cut-append p.nodes p.kinds _ _ _ v.kind_each, cut-Cut more c) refl

Cut-one : (p : FoundPath) → IsPath p → Cut (length p.nodes ∷ []) p.nodes p.kinds (p ∷ [])
Cut-one p v =
    subst (λ ns. Cut (length p.nodes ∷ []) ns p.kinds (p ∷ [])) (append-nil p.nodes)
      (subst (λ ks. Cut (length p.nodes ∷ []) (p.nodes ++ []) ks (p ∷ [])) (append-nil p.kinds)
        (cut_path p v cut_none))

Cut-append :
    {lens nodes : List ℕ} {kinds : List ℤ} {ps : List FoundPath} (p : FoundPath)
    → IsPath p
    → Cut lens nodes kinds ps
    → Cut (lens ++ length p.nodes ∷ []) (nodes ++ p.nodes) (kinds ++ p.kinds) (ps ++ p ∷ [])
Cut-append p v cut_none = Cut-one p v
Cut-append p v (cut_path q w c) =
    rw (append_assoc q.nodes, append_assoc q.kinds) (cut_path q w (Cut-append p v c))

-- The chunks, newest first, hold the paths, oldest first.
pub data Chunked : List Chunk → List ℕ → List FoundPath → Type 0 where
  no_chunk : Chunked [] [] []
  chunk :
      (cs : List Chunk) (lens lens' : List ℕ) (ps ps' : List FoundPath) (c : Chunk)
      → Chunked cs lens ps
      → Cut lens' c.nodes c.kinds ps'
      → Chunked (c ∷ cs) (lens ++ lens') (ps ++ ps')

cut_chunks-Chunked :
    {cs : List Chunk} {lens : List ℕ} {ps : List FoundPath} (more : List ℕ) (after : List Chunk)
    → Chunked cs lens ps
    → cut_chunks (lens ++ more) (oldest_first cs after) ≡ ps ++ cut_chunks more after
cut_chunks-Chunked more after no_chunk = refl
cut_chunks-Chunked more after (chunk cs lens lens' ps ps' c s d) =
    rw (append_assoc lens lens' more, cut_chunks-Chunked _ (c ∷ after) s, cut-Cut more d)
      (sym (append_assoc ps ps' (cut_chunks more after)))

-- A path that goes to the newest chunk, which is there.
Chunked-fill :
    {cs : List Chunk} {lens : List ℕ} {ps : List FoundPath} (p : FoundPath) (need : ℕ)
    → IsPath p
    → needs_chunk need cs ≡ false
    → Chunked cs lens ps
    → Chunked (fill p.nodes p.kinds cs) (lens ++ length p.nodes ∷ []) (ps ++ p ∷ [])
Chunked-fill p need v e no_chunk = ground (arith, e)
Chunked-fill p need v e (chunk cs lens lens' ps ps' c s d) =
    rw (append_assoc lens, append_assoc ps) (chunk cs lens _ ps _ _ s (Cut-append p v d))

length-zero {ℓ} : {A : Type ℓ} (xs : List A) → length xs ≡ 0 → xs ≡ []
length-zero [] h = refl
length-zero (x ∷ xs) h = absurd (omega (arith, h))

length-reverse_aux {ℓ} :
    {A : Type ℓ} (xs ys : List A) → length (reverse_aux xs ys) ≡ length xs + length ys
length-reverse_aux [] ys = omega arith
length-reverse_aux (x ∷ xs) ys = omega (arith, length-reverse_aux xs (x ∷ ys))

pub length-reverse {ℓ} : {A : Type ℓ} (xs : List A) → length (reverse xs) ≡ length xs
length-reverse xs = omega (arith, length-reverse_aux xs [])

-- The sink holds those paths.
pub record Holds (s : PathSink) (ps : List FoundPath) : Type 0 where
  pub chunked : Chunked s.chunks s.lens ps
  pub counted : s.n ≡ length ps

pub new_sink-Holds : Holds new_sink []
new_sink-Holds = record { chunked = no_chunk; counted = refl }

-- The path as `add_path` stores it.
abbrev pub oriented : FoundPath × Bool → FoundPath
oriented (p, reversed) = record { nodes = turned reversed p.nodes; kinds = turned reversed p.kinds }

pub paths-Holds : (s : PathSink) (ps : List FoundPath) → Holds s ps → paths s ≡ ps
unfolding paths
paths-Holds s ps h =
    if_cases (λ x. x ≡ ps) (s.n == 0) (λ e. sym (length-zero ps (ground (arith, h.counted))))
      (λ _.
        ap (λ l. cut_chunks l (oldest_first s.chunks [])) (sym (append-nil s.lens))
        ∙ cut_chunks-Chunked [] [] h.chunked
        ∙ append-nil ps)

length-turned {ℓ} : {A : Type ℓ} (b : Bool) (xs : List A) → length (turned b xs) ≡ length xs
length-turned false xs = refl
length-turned true xs = length-reverse xs

oriented-IsPath : (p : FoundPath) (b : Bool) → IsPath p → IsPath (oriented (p, b))
oriented-IsPath p b v =
    let e : length (turned b p.nodes) ≡ length p.nodes = length-turned b p.nodes in
    let f : length (turned b p.kinds) ≡ length p.kinds = length-turned b p.kinds in
    record {
      some_node = omega (arith, e, v.some_node);
      short = omega (arith, e, v.short);
      kind_each = omega (arith, e, f, v.kind_each);
    }

-- The sink after the path is put into its newest chunk.
abbrev put_path : FoundPath → ℕ → PathSink → PathSink
put_path p len room = record room {
  chunks = fill p.nodes p.kinds room.chunks;
  lens = room.lens ++ len ∷ [];
  n = suc room.n;
}

pub add_path-Holds :
    (p : FoundPath) (reversed : Bool) (s : PathSink) (ps : List FoundPath)
    → IsPath p
    → Holds s ps
    → Holds (add_path p.nodes p.kinds reversed s) (ps ++ oriented (p, reversed) ∷ [])
unfolding add_path add_chunk
add_path-Holds p b s ps v h =
    let q : FoundPath = oriented (p, b) in
    let w : IsPath q = oriented-IsPath p b v in
    let e : length p.nodes % 2 ^ 16 ≡ length q.nodes =
      omega (arith, length-turned b p.nodes, v.short) in
    let n : suc s.n ≡ length (ps ++ q ∷ []) = omega (arith, length-append ps (q ∷ []), h.counted) in
    subst
      (λ len.
        Holds
          (put_path q len
            (if needs_chunk (length p.nodes) s.chunks then add_chunk (length p.nodes) s else s))
          (ps ++ q ∷ []))
      (sym e)
      (if_cases (λ room. Holds (put_path q (length q.nodes) room) (ps ++ q ∷ []))
        (needs_chunk (length p.nodes) s.chunks)
        (λ _. record { chunked = chunk _ _ _ _ _ _ h.chunked (Cut-one q w); counted = n })
        (λ f. record { chunked = Chunked-fill q (length p.nodes) w f h.chunked; counted = n }))

-- The calls of `add_path`, in order.
abbrev pub add_all : List (FoundPath × Bool) → PathSink → PathSink
add_all [] s = s
add_all ((p, reversed) ∷ ps) s = add_all ps (add_path p.nodes p.kinds reversed s)

add_all-Holds :
    (xs : List (FoundPath × Bool)) (s : PathSink) (ps : List FoundPath)
    → All (λ x. IsPath x.0) xs
    → Holds s ps
    → Holds (add_all xs s) (ps ++ map oriented xs)
add_all-Holds [] s ps v h = subst (Holds s) (sym (append-nil ps)) h
add_all-Holds ((p, b) ∷ xs) s ps v h =
    subst (Holds _) (append_assoc ps (oriented (p, b) ∷ []) (map oriented xs))
      (add_all-Holds xs _ _ v.1 (add_path-Holds p b s ps v.0 h))

-- Of paths that each have a node, fewer than 2 ^ 16 nodes and one kind per hop, added to a new or a
-- reset sink, the sink returns each one, in the order in which they were added and turned round
-- where that was asked for; and it counts them.
pub paths-add_path :
    (xs : List (FoundPath × Bool)) (s : PathSink)
    → All (λ x. IsPath x.0) xs
    → (paths (add_all xs (reset_sink s)) ≡ map oriented xs)
      × ((add_all xs (reset_sink s)).n ≡ length (map oriented xs))
unfolding reset_sink
paths-add_path xs s v =
    let h : Holds (add_all xs new_sink) (map oriented xs) =
      add_all-Holds xs new_sink [] v new_sink-Holds in
    (paths-Holds _ _ h, h.counted)
