-- ===== src/Base.antt =====
-- The names that the other modules share: the libraries', passed on, and those of the children.
-- `Base/Tests` has the Boolean tests, `Base/Lists` lists over the native numbers, `Base/Dict` the
-- JavaScript `Map` with string keys, `Base/Results` computations that fail with an error value.
mod Tests
mod Lists
mod Results
pub mod Dict
pub mod Text
pub use Tests.*
pub use Lists.*
pub use Results.*
pub use Prim.Native.Nat.{ℕ, zero, suc, ◌+◌, ◌-◌, ◌*◌, ◌/◌, ◌%◌, ◌^◌, ◌≤◌, ◌<◌, min, max}
pub use Prim.Native.String.{String}
pub use mathlib.Core.Path.{◌≡◌, refl, sym, ap, subst, ◌∙◌}
pub use mathlib.Core.Logic.{◌≢◌, ◌↔◌, ◌⊎◌, inl, inr}
pub use mathlib.Core.Bool.{Bool, true, false, not, ◌&&◌, ◌||◌, false≢true}
pub use mathlib.Core.Option.{Option, none, some}
pub use mathlib.Core.List.{List, [], ◌∷◌, ◌++◌, map, reverse, append-nil, append_assoc, map-append}
pub use native.Mathlib.Omega.{arith}
pub use text.Mathlib.Text.{◌==◌ as str_eq}
pub use text.Mathlib.TextEquality.{eq_iff}
pub use text.Mathlib.TextPositions.{eq_refl}
unfoldable pub use native.Mathlib.Decide.{dec_lt, ℕ_discrete}
