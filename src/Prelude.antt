-- ===== src/Prelude.antt =====
-- The names that the components share: the libraries' own, passed on, and those of the children.
mod Tests
mod Lists
mod Throws
mod Maps
mod Text
mod Patterns
mod Values
mod Conversions
mod Objects
mod Trims
pub use Tests.*
pub use Lists.*
pub use Throws.*
unfoldable pub use Maps.*
unfoldable pub use Text.*
unfoldable pub use Patterns.*
unfoldable pub use Values.*
unfoldable pub use Conversions.*
unfoldable pub use Objects.*
pub use Trims.*
pub use Prim.Native.Nat.{ℕ, zero, suc, ◌+◌, ◌-◌, ◌*◌, ◌/◌, ◌%◌, ◌^◌, ◌≤◌, ◌<◌, bit_xor}
pub use Prim.Native.String.{String}
pub use mathlib.Core.Path.{◌≡◌, refl, sym, subst, ap, ap₂, ◌∙◌, ◌≡⟨◌⟩◌, ◌∎}
pub use mathlib.Core.Logic.{◌≢◌, ◌↔◌, ◌⊎◌, inl, inr}
pub use mathlib.Core.Bool.{Bool, true, false, not, ◌&&◌, ◌||◌}
pub use mathlib.Core.Option.{Option, none, some}
pub use mathlib.Core.List.{List, [], ◌∷◌, ◌++◌, map, append-nil, append_assoc, reverse}
pub use native.Mathlib.Omega.{arith}
pub use text.Mathlib.Text.{◌==◌ as str_eq}
pub use text.Mathlib.TextEquality.{eq_iff}
pub use text.Mathlib.TextPositions.{eq_refl}
