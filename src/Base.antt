-- ===== src/Base.antt =====
-- The names that the other modules share: the libraries', passed on, and those of the children.
pub mod Tests
pub mod Lists
pub mod Outcome
pub mod Equal
pub mod Int
pub mod Bits
pub mod Endings
pub mod Places
unfoldable pub use Tests.*
pub use Lists.*
pub use Int.{ℤ, pos, negsuc, sub_ℕ, increment, at_least}
pub use Outcome.*
pub use Endings.*
pub use Places.*
pub use Equal.{Eq, Bytes, bytes_equal, bytes_equal_refl, bytes_equal_iff, nat_eq, bytes_eq}
pub use Prim.Native.Nat.{ℕ, zero, suc, ◌+◌, ◌-◌, ◌*◌, ◌/◌, ◌%◌, ◌^◌, ◌≤◌, ◌<◌, min, bit_and}
pub use mathlib.Core.Path.{◌≡◌, refl, sym, ap, ◌∙◌}
pub use mathlib.Core.Logic.{◌≢◌, ◌↔◌, ◌⊎◌, inl, inr}
pub use mathlib.Core.Bool.{Bool, true, false, not, ◌&&◌, ◌||◌}
pub use mathlib.Core.Option.{Option, none, some}
pub use mathlib.Core.List.{List, [], ◌∷◌, ◌++◌, map}
pub use native.Mathlib.Omega.{arith}
