-- ===== src/Base.antt =====
-- The names that all parts of the model share: the libraries', passed on, and those of the children.
mod Tests
mod Lists
mod Equality
mod Maps
mod Tally
mod Text
mod Sort
mod Missing
mod SortedKeys
mod Int
mod Numeral
mod Prefixes
pub use Tests.*
unfoldable pub use Lists.*
pub use Equality.*
pub use Maps.*
unfoldable pub use Tally.*
unfoldable pub use Text.*
unfoldable pub use Sort.*
unfoldable pub use Missing.*
pub use SortedKeys.*
unfoldable pub use Int.*
unfoldable pub use Numeral.*
pub use Prefixes.*
pub use Prim.Native.Nat.{ℕ, zero, suc, ◌+◌, ◌-◌, ◌*◌, ◌/◌, ◌%◌, ◌≤◌, ◌<◌}
pub use Prim.Native.String.{String}
pub use mathlib.Core.Path.{◌≡◌, refl, sym, ap, ◌∙◌}
pub use mathlib.Core.Logic.{◌≢◌, ◌↔◌, ◌⊎◌, inl, inr}
pub use mathlib.Core.Bool.{Bool, true, false, ◌&&◌, ◌||◌, not}
pub use mathlib.Core.Option.{Option, none, some}
pub use mathlib.Core.List.{Memᴰ, List, [], ◌∷◌, ◌++◌, map, foldl}
pub use native.Mathlib.Omega.{arith}
