-- ===== src/Interpret/Tri.antt =====
-- internal/engine/interpret/value.go: three-valued logic.
pub mod Kleene
mod Examples
use blood_trail.Prelude.{Bool, true, false, ◌&&◌, ◌||◌, if◌then◌else◌}

pub data Tri : Type 0 where
  tri_false tri_true tri_null : Tri

-- `t == o`
abbrev pub same : Tri → Tri → Bool
same tri_false tri_false = true
same tri_true tri_true = true
same tri_null tri_null = true
same _ _ = false

pub tri_and : Tri → Tri → Tri
tri_and t o =
    if same t tri_false || same o tri_false
    then tri_false
    else if same t tri_null || same o tri_null
    then tri_null
    else tri_true

pub tri_or : Tri → Tri → Tri
tri_or t o =
    if same t tri_true || same o tri_true
    then tri_true
    else if same t tri_null || same o tri_null
    then tri_null
    else tri_false

pub tri_not : Tri → Tri
tri_not tri_false = tri_true
tri_not tri_true = tri_false
tri_not tri_null = tri_null

pub tri_xor : Tri → Tri → Tri
tri_xor t o =
    if same t tri_null || same o tri_null
    then tri_null
    else if same t o
    then tri_false
    else tri_true

unfoldable pub bool_to_tri : Bool → Tri
bool_to_tri true = tri_true
bool_to_tri false = tri_false
