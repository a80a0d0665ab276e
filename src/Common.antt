-- ===== src/Common.antt =====
-- The names that every module shares: the libraries' names, passed on, and the Boolean tests and
-- list functions over the native numbers.
mod Tests
mod Lists
mod Loops
mod Rows
mod Below
pub mod Int
mod Text
pub use Tests.*
pub use Below.{holds_below_sound}
unfoldable pub use Below.{holds_below}
pub use Lists.*
pub use Loops.*
pub use Text.*
unfoldable pub use Text.{str_eq}
pub use Rows.*
unfoldable pub use Loops.{for_loop}
pub use Prim.Native.Nat.{ℕ, zero, suc, ◌+◌, ◌-◌, ◌*◌, ◌/◌, ◌%◌, ◌^◌, ◌≤◌, ◌<◌, min, max}
pub use Prim.Native.Nat.{bit_and, bit_or, bit_xor}
pub use mathlib.Core.Path.{◌≡◌, refl, sym, ap, ap₂, ◌∙◌, subst, fun_ext, ◌≡⟨◌⟩◌, ◌∎}
pub use mathlib.Core.Logic.{◌≢◌, ◌↔◌, ◌⊎◌, inl, inr}
pub use mathlib.Core.Bool.{Bool, true, false, not, ◌&&◌, ◌||◌}
pub use mathlib.Core.Option.{Option, none, some}
pub use mathlib.Core.List.{List, [], ◌∷◌, ◌++◌, map, reverse, append-nil, append_assoc}
pub use native.Mathlib.Omega.{arith}
