-- ===== src/Base.antt =====
-- The names that every module shares: the library's, passed on, and those of the children.
-- `Tests`, `Lists`, `Sort`, `Numbers`, `Text` and `Errors` stand for what the TypeScript language
-- gives the program; `Platform` is what it takes from the JavaScript engine.
mod Tests
mod Errors
mod Text
mod Numbers
pub mod Int
pub mod Action
pub mod Keyed
pub mod Lists
pub mod Sort
pub mod Platform
pub use Tests.*
pub use Errors.*
unfoldable pub use Text.*
unfoldable pub use Numbers.*
pub use Text.Trim.*
pub use Prim.Native.Nat.{ℕ, zero, suc, ◌+◌, ◌-◌, ◌*◌, ◌≤◌, ◌<◌}
pub use Prim.Native.String.{String}
pub use mathlib.Core.Path.{◌≡◌, refl, sym, ap, ◌∙◌}
pub use mathlib.Core.Logic.{◌≢◌, ◌↔◌, ◌⊎◌, inl, inr}
pub use mathlib.Core.Bool.{Bool, true, false, not, ◌&&◌, ◌||◌}
pub use mathlib.Core.Option.{Option, none, some}
pub use mathlib.Core.List.{List, [], ◌∷◌, ◌++◌, map}
pub use native.Mathlib.Omega.{arith}
pub use text.Mathlib.TextEquality.{eq_iff}
pub use text.Mathlib.TextPositions.{eq_refl}
