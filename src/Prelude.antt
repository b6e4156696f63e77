-- ===== src/Prelude.antt =====
-- What the other modules share: the libraries' names, passed on, Boolean tests, equality by
-- instances, byte strings (`std::string`), signed integers, results with exceptions, and the
-- association lists and sets that stand for the standard library's maps and sets.
mod Tests
mod Equality
mod Lists
mod Maps
mod Failure
mod Decimal
mod Ints
mod Loops
unfoldable pub use Tests.*
unfoldable pub use Equality.*
unfoldable pub use Lists.*
unfoldable pub use Maps.*
unfoldable pub use Loops.*
unfoldable pub use Failure.*
unfoldable pub use Decimal.{decimal_digits, decimal_prefix, nat_to_string, int_to_string}
unfoldable pub use Ints.{int_of_low, to_int}
pub use Prim.Native.Nat.{ℕ, zero, suc, ◌+◌, ◌-◌, ◌*◌, ◌/◌, ◌%◌, ◌^◌, ◌≤◌, ◌<◌}
pub use mathlib.Core.Path.{◌≡◌, refl, sym, ap, ap₂, subst, ◌∙◌}
pub use mathlib.Core.Logic.{◌≢◌, ◌↔◌, ◌⊎◌, inl, inr}
pub use mathlib.Core.Bool.{Bool, true, false, not, ◌&&◌, ◌||◌}
pub use mathlib.Core.Option.{Option, none, some}
pub use mathlib.Core.List.{List, [], ◌∷◌, ◌++◌, map, append_assoc, append-nil}
pub use native.Mathlib.Omega.{arith}
