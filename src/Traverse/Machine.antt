-- ===== src/Traverse/Machine.antt =====
-- internal/engine/traverse/bfs.go: the explicit stack of frames on which enumerate and
-- pairEnumerate walk. They differ in what a node is to the walk, which `Turn` answers. The loop
-- has fuel, of which `steps` (Traverse/Machine/Walks) is enough.
pub mod Walks
pub mod Frames
pub mod Run
pub mod Keeps
pub mod Fuel
pub mod Prefix
use blood_trail.Prelude.{
  ℕ, zero, suc, ◌+◌, ◌-◌, ◌%◌, ◌^◌, Bool, true, false, ◌&&◌, List, [], ◌∷◌, ◌++◌, Option, none,
  some, ltb, ◌==◌, if◌then◌else◌, length, take, ℤ,
}
use blood_trail.Traverse.Sink.{add_path}
use blood_trail.Traverse.Adjacency.{Edge}
use blood_trail.Traverse.Budget.{add_bytes, path_bytes, Store}

pub record Frame : Type 0 where
  pub node : ℕ
  pub kind : ℤ
  pub depth : ℕ

-- A dead end, the end of a path, or a node to go on from over those edges.
pub data Turn : Type 0 where
  skip : Turn
  arrive : Turn
  onward : List Edge → Turn

-- After a path was found: go on, stop since the cap is reached, or stop on the memory limit.
pub data Verdict : Type 0 where
  open_ : Store → Verdict
  full : Store → Verdict
  failed : Store → Verdict

pub record Search : Type 0 where
  pub walk : List ℕ
  pub walk_kinds : List ℤ
  pub store : Store

-- `walkKinds[:d-1]` with the kind after it, or `walkKinds[:0]` at the root.
abbrev pub kinds_to : ℕ → ℤ → List ℤ → List ℤ
kinds_to zero k ks = []
kinds_to (suc d) k ks = take d ks ++ k ∷ []

abbrev pub moved : Frame → Search → Search
moved f s = record s {
  walk = take f.depth s.walk ++ f.node ∷ [];
  walk_kinds = kinds_to f.depth f.kind s.walk_kinds;
}

-- The last frame comes off first.
abbrev pub push_all : ℕ → List Edge → List Frame → List Frame
push_all d [] fs = fs
push_all d ((w, k) ∷ es) fs =
    push_all d es (record { node = w; kind = k; depth = (d + 1) % 2 ^ 16 } ∷ fs)

-- Charge the path, store it, and look at the cap.
unfoldable pub deposit : ℕ → Bool → List ℕ → List ℤ → Store → Verdict
deposit cap reversed nodes kinds st = elim (add_bytes (path_bytes (length nodes)) st.budget) [
  | none ↦ failed st
  | some b ↦
      let sink = add_path nodes kinds reversed st.sink in
      if ltb 0 cap && sink.n == cap
      then full (record { budget = b; sink = sink })
      else open_ (record { budget = b; sink = sink })
]

-- What the loop returns after a verdict, where `k` is what follows an open one.
unfoldable pub settle : Verdict → (Store → Option (Store × Bool)) → Option (Store × Bool)
settle (open_ st) k = k st
settle (full st) k = some (st, true)
settle (failed st) k = some (st, false)

-- The store, and whether there was no error. None is out of fuel.
unfoldable pub run : (ℕ → ℕ → Turn) → ℕ → Bool → ℕ → List Frame → Search → Option (Store × Bool)
run turn cap reversed fuel [] s = some (s.store, true)
run turn cap reversed zero (f ∷ fs) s = none
run turn cap reversed (suc fuel) (f ∷ fs) s = elim (turn f.node (length (moved f s).walk)) [
  | skip ↦ run turn cap reversed fuel fs (moved f s)
  | arrive ↦
      settle (deposit cap reversed (moved f s).walk (moved f s).walk_kinds s.store)
        (λ st. run turn cap reversed fuel fs (record (moved f s) { store = st }))
  | onward es ↦ run turn cap reversed fuel (push_all f.depth es fs) (moved f s)
]

abbrev pub start : ℕ → Store → Search
start u st = record { walk = []; walk_kinds = []; store = st }
