-- ===== src/Base.antt =====
-- The names that the other modules share: the libraries', passed on, and those of the children.
mod Tests
mod Lists
mod Exceptions
mod Coders
mod Decimal
mod Numerals
mod Integers
mod Texts
pub use Decimal.{is_digit, decimal, read_digits, starts_with_digit, skip_spaces, stoul}
unfoldable pub use Numerals.{from_chars}
pub use Numerals.{from_chars-decimal, read_base, read_base-decimal}
pub use Integers.{ℤ, pos, negsuc}
pub use Texts.{codes, same_text, same_text_sound, same_text_refl}
pub use Tests.*
pub use Lists.*
pub use Coders.{Reads, Writes, Reads-bind, Reads-bind_nil, Writes-bind, Writes-bind_nil}
unfoldable pub use Coders.{for_each, repeat}
pub use Coders.{Writes-for_each, Reads-repeat}
pub use Exceptions.*
pub use Prim.Native.Nat.{ℕ, zero, suc, ◌+◌, ◌-◌, ◌*◌, ◌/◌, ◌%◌, ◌^◌, ◌≤◌, ◌<◌}
pub use mathlib.Core.Path.{◌≡◌, refl, sym, ap, ◌∙◌, subst}
pub use mathlib.Core.Logic.{◌≢◌, ◌⊎◌, inl, inr}
pub use mathlib.Core.Bool.{Bool, true, false, not, ◌&&◌, ◌||◌}
pub use mathlib.Core.Option.{Option, none, some}
pub use mathlib.Core.List.{List, [], ◌∷◌, ◌++◌, map, append-nil, append_assoc}
pub use native.Mathlib.Omega.{arith}
