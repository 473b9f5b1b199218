-- ===== src/Traverse/Scratch.antt =====
-- internal/engine/traverse/traverse.go, scratch: distance buffers that are invalidated by a new
-- epoch. An index out of range panics in Go; the theorems ask for nodes in range, and a read past
-- the end has a default here that they never reach.
pub mod Laws
use blood_trail.Prelude.{
  ℕ, suc, ◌+◌, ◌*◌, ◌%◌, ◌^◌, Bool, true, false, List, Option, none, some, ◌==◌, if◌then◌else◌,
  length, get_or, set, replicate, map,
}

-- `mark` and `epoch` are uint32, `dist` is int8, kept as its bit pattern.
pub record Scratch : Type 0 where
  pub mark : List ℕ
  pub dist : List ℕ
  pub epoch : ℕ

abbrev pub u32_mod : ℕ
u32_mod = 2 ^ 32

-- The conversion `int8(d)`.
abbrev pub int8 : ℕ → ℕ
int8 d = d % 256

unfoldable pub new_scratch : ℕ → Scratch
new_scratch n = record { mark = replicate n 0; dist = replicate n 0; epoch = 0 }

pub scratch_bytes : ℕ → ℕ
scratch_bytes n = n * 5

-- `clear(s.mark)`
abbrev pub cleared : List ℕ → List ℕ
cleared xs = map (λ _. 0) xs

unfoldable pub reset : Scratch → Scratch
reset s =
    let next : ℕ = (s.epoch + 1) % u32_mod in
    if next == 0 then record s { mark = cleared s.mark; epoch = 1 } else record s { epoch = next }

-- The distance, and whether it was set since the last reset.
unfoldable pub get : Scratch → ℕ → Option ℕ
get s v = if get_or s.mark v 0 == s.epoch then some (get_or s.dist v 0) else none

unfoldable pub put : Scratch → ℕ → ℕ → Scratch
put s v d = record s { mark = set s.mark v s.epoch; dist = set s.dist v d }
