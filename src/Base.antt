-- ===== src/Base.antt =====
-- Names that every part shares: the libraries' names passed on, Boolean tests on the native
-- numbers, lists indexed by native numbers, and the arithmetic of C's unsigned words.
mod Tests
mod Lists
mod Words
mod Process
pub use Tests.*
pub use Lists.*
unfoldable pub use Words.{add32, sub32, add64, sub64, mul32}
pub use Words.{u32_mod, u64_mod}
pub use Process.*
pub use Prim.Native.Nat.{ℕ, zero, suc, ◌+◌, ◌-◌, ◌*◌, ◌/◌, ◌%◌, ◌^◌, ◌≤◌, ◌<◌, min, max}
pub use mathlib.Core.Path.{◌≡◌, refl, sym, ap, subst, ◌∙◌}
pub use mathlib.Core.Logic.{◌≢◌, ◌↔◌, ◌⊎◌, inl, inr}
pub use mathlib.Core.Bool.{Bool, true, false, not, ◌&&◌, ◌||◌}
pub use mathlib.Core.Option.{Option, none, some}
pub use mathlib.Core.List.{List, [], ◌∷◌, ◌++◌, map, append_assoc, append-nil}
pub use native.Mathlib.Omega.{arith}
