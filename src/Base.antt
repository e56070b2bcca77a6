-- ===== src/Base.antt =====
-- What the other modules share: the libraries' names passed on, tests and lists over the native
-- numbers, byte strings (a Go `string` or `[]byte` is the list of its bytes) and signed integers.
mod Branching
mod Lists
mod ByteStrings
mod Signed
unfoldable pub use Branching.*
unfoldable pub use Lists.*
unfoldable pub use ByteStrings.*
unfoldable pub use Signed.*
pub use Prim.Native.Nat.{ℕ, zero, suc, ◌+◌, ◌-◌, ◌*◌, ◌/◌, ◌%◌, ◌^◌, ◌≤◌, ◌<◌}
pub use mathlib.Core.Path.{◌≡◌, refl, sym, ap, ◌∙◌}
pub use mathlib.Core.Logic.{◌≢◌, ◌↔◌, ◌⊎◌, inl, inr}
pub use mathlib.Core.Bool.{Bool, true, false, not, ◌&&◌, ◌||◌}
pub use mathlib.Core.Option.{Option, none, some}
pub use mathlib.Core.List.{List, [], ◌∷◌, ◌++◌, map, append_assoc, append-nil}
pub use native.Mathlib.Omega.{arith}
