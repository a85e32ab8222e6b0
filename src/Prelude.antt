-- ===== src/Prelude.antt =====
-- The names that every component shares: the libraries' own, passed on, and those of the children
-- (Boolean tests, lists, machine words, results, byte strings, keyed maps).
mod Tests
mod Lists
mod Word
mod Results
mod ByteStrings
mod Map
mod Int
pub use Tests.*
pub use Lists.*
pub use Word.*
pub use Results.*
unfoldable pub use ByteStrings.*
pub use Map.*
pub use Int.*
pub use Prim.Native.Nat.{ℕ, zero, suc, ◌+◌, ◌-◌, ◌*◌, ◌/◌, ◌%◌, ◌^◌, ◌≤◌, ◌<◌, min, max}
pub use mathlib.Core.Path.{◌≡◌, refl, sym, ap, ◌∙◌}
pub use mathlib.Core.Logic.{◌≢◌, ◌↔◌, ◌⊎◌, inl, inr}
pub use mathlib.Core.Bool.{Bool, true, false, not, ◌&&◌, ◌||◌}
pub use mathlib.Core.Option.{Option, none, some}
pub use mathlib.Core.List.{List, [], ◌∷◌, ◌++◌, map}
pub use native.Mathlib.Omega.{arith}
unfoldable pub use native.Mathlib.Decide.{dec_lt, ℕ_discrete}
