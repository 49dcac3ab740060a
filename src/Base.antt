-- ===== src/Base.antt =====
-- The names that every module shares: the libraries' and those of the children.
mod Tests
mod Lists
mod Filter
pub mod Sort
pub mod Order
mod Outcome
mod Slice
pub mod Dict
pub use Tests.*
pub use Lists.*
pub use Filter.*
pub use Outcome.*
unfoldable pub use Slice.*
pub use Prim.Native.Nat.{ℕ, zero, suc, ◌+◌, ◌-◌, ◌*◌, ◌/◌, ◌%◌, ◌^◌, ◌≤◌, ◌<◌, min}
pub use Prim.Native.String.{String}
pub use mathlib.Core.Path.{◌≡◌, refl, sym, ap, ◌∙◌, fun_ext}
pub use mathlib.Core.Logic.{◌≢◌, ◌↔◌, ◌⊎◌, inl, inr}
pub use mathlib.Core.Bool.{Bool, true, false, not, ◌&&◌, ◌||◌}
pub use mathlib.Core.Option.{Option, none, some}
pub use mathlib.Core.List.{
  List, [], ◌∷◌, ◌++◌, append_assoc, append-nil, map, map-append, foldl, foldl-append,
}
pub use native.Mathlib.Omega.{arith}
