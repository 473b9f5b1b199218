-- ===== src/Prelude.antt =====
-- The names that the other modules share: the libraries', passed on, and those of the children:
-- Boolean tests, lists under native indices, Go's `sort.Search` and `sort.Slice`, and the
-- wrap-around of its unsigned integers.
mod Tests
mod Lists
mod Search
mod Sort
mod Words
mod Mem
mod Membership
mod Bits
mod Int
mod Maps
pub use Tests.*
pub use Lists.*
unfoldable pub use Search.{search}
pub use Search.{Ascends, FirstAt, search-first, search-le}
unfoldable pub use Sort.{sort}
pub use Sort.{count, SortedFrom, count-sort, sort-SortedFrom, sort-All, count-below}
unfoldable pub use Words.{inc64, add64}
pub use Words.{bigint_bound, inc64-suc, add64-add}
pub use Mem.*
pub use Membership.*
pub use Bits.*
pub use Int.*
unfoldable pub use Maps.*
pub use Prim.Native.Nat.{ℕ, zero, suc, ◌+◌, ◌-◌, ◌*◌, ◌/◌, ◌%◌, ◌^◌, ◌≤◌, ◌<◌, bit_and, bit_or}
pub use mathlib.Core.Path.{◌≡◌, refl, sym, ap, ◌∙◌}
pub use mathlib.Core.Logic.{◌≢◌, ◌↔◌, ◌⊎◌, inl, inr}
pub use mathlib.Core.Bool.{Bool, true, false, not, ◌&&◌, ◌||◌}
pub use mathlib.Core.Option.{Option, none, some}
pub use mathlib.Core.List.{List, [], ◌∷◌, ◌++◌, map, append-nil, append_assoc}
pub use native.Mathlib.Omega.{arith}
