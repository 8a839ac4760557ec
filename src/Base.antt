-- ===== src/Base.antt =====
-- The names that all modules share: those of the libraries, and those of the children.
mod Tests
mod Lists
mod Bits
mod Bytes
mod Int
mod Text
pub use Tests.*
pub use Lists.*
unfoldable pub use Bits.*
unfoldable pub use Bytes.*
pub use Int.*
pub use Text.*
pub use Prim.Native.Nat.{
  ℕ, zero, suc, ◌+◌, ◌-◌, ◌*◌, ◌/◌, ◌%◌, ◌^◌, ◌≤◌, ◌<◌, min, max, bit_and, bit_or,
}
pub use Prim.Native.String.{String}
pub use mathlib.Core.Path.{◌≡◌, refl, sym, ap, ap₂, ◌∙◌, subst}
pub use native.Mathlib.Nat.{pow-zero, pow-suc, one-le-pow}
pub use mathlib.Core.Logic.{◌≢◌, ◌↔◌, ◌⊎◌, inl, inr}
pub use mathlib.Core.Bool.{Bool, true, false, not, ◌&&◌, ◌||◌}
pub use mathlib.Core.Option.{Option, none, some}
pub use mathlib.Core.List.{List, [], ◌∷◌, ◌++◌, map, append_assoc}
pub use native.Mathlib.Omega.{arith}
