-- ===== src/Base.antt =====
-- Names that every component shares: the libraries', passed on, and those of the children.
-- `Base.Text` models the Go string functions that the program calls.
mod Tests
mod Lists
mod Text
pub mod Maps
pub mod Int
pub mod Context
pub mod Substring
pub mod Decimal
pub mod Trim
pub use Tests.*
pub use Lists.*
pub use Prim.Native.Nat.{ℕ, zero, suc, ◌+◌, ◌-◌, ◌*◌, ◌≤◌, ◌<◌}
pub use mathlib.Core.Path.{◌≡◌, refl, sym, ap, ◌∙◌}
pub use mathlib.Core.Logic.{◌≢◌, ◌↔◌, ◌⊎◌, inl, inr}
pub use mathlib.Core.Bool.{Bool, true, false, not, ◌&&◌, ◌||◌}
pub use mathlib.Core.Option.{Option, none, some}
pub use mathlib.Core.List.{List, [], ◌∷◌, ◌++◌, map}
pub use native.Mathlib.Omega.{arith}
unfoldable pub use Text.{
  Str, bytes, ◌==◌, is_blank, trim_space, contains_str, has_prefix, to_lower_ascii, space_prefix,
  strip,
}
pub use Text.{==_iff, ==_refl, ==_apart}
