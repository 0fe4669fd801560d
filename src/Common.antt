-- ===== src/Common.antt =====
-- The names that every module shares: those of the libraries, passed on, and those of the
-- children: tests on numbers, lists over the native numbers, signed integers, text, sorting and
-- the error values of the app.
mod Tests
mod Lists
pub mod Int
pub mod Text
pub mod Order
pub mod Decimal
pub mod Sort
pub mod Chunks
pub mod Slices
pub mod Error
pub use Tests.*
pub use Lists.*
pub use Prim.Native.Nat.{ℕ, zero, suc, ◌+◌, ◌-◌, ◌*◌, ◌/◌, ◌%◌, ◌^◌, ◌≤◌, ◌<◌, min, max}
pub use mathlib.Core.Path.{◌≡◌, refl, sym, ap, ◌∙◌, subst, ◌≡⟨◌⟩◌, ◌∎}
pub use mathlib.Core.Logic.{◌≢◌, ◌↔◌, ◌⊎◌, inl, inr}
pub use mathlib.Core.Bool.{Bool, true, false, not, ◌&&◌, ◌||◌}
pub use mathlib.Core.Option.{Option, none, some}
pub use mathlib.Core.List.{List, [], ◌∷◌, ◌++◌, map}
pub use native.Mathlib.Omega.{arith}
