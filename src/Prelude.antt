-- ===== src/Prelude.antt =====
-- Names and lemmas that every component shares: the libraries' names passed on, Boolean tests on
-- native numbers, lists with native lengths, byte strings, bits of machine words, Go's maps and
-- Go's (value, error) results.
pub mod Tests
pub mod Lists
pub mod Bytes
pub mod Bits
pub mod Perms
pub mod Result
pub mod Dict
pub mod Int
pub mod Time
pub use Tests.*
pub use Lists.*
pub use Bytes.*
pub use Prim.Native.Nat.{ℕ, zero, suc, ◌+◌, ◌-◌, ◌*◌, ◌/◌, ◌%◌, ◌^◌, ◌≤◌, ◌<◌}
pub use mathlib.Core.Path.{◌≡◌, refl, sym, ap, ◌∙◌}
pub use mathlib.Core.Logic.{◌≢◌, ◌↔◌, ◌⊎◌, inl, inr}
pub use mathlib.Core.Bool.{Bool, true, false, ◌&&◌, ◌||◌, not}
pub use mathlib.Core.Option.{Option, none, some}
pub use mathlib.Core.List.{List, [], ◌∷◌, ◌++◌, map}
pub use native.Mathlib.Omega.{arith}
