-- ===== src/Prelude/Text.antt =====
-- Names and messages are native texts; tests on them, and their order.
use Prim.Native.String.{String, compare}
use Prim.Native.Nat.{Ordering}
use mathlib.Core.Bool.{Bool, true, false}
pub use Prim.Native.String.{String}
pub use text.Mathlib.Text.{◌==◌ as str_eq}
pub use text.Mathlib.TextEquality.{eq_iff}
pub use text.Mathlib.TextPositions.{eq_refl}

-- Go's `s > t`.
abbrev pub str_gtb : String → String → Bool
str_gtb s t = elim (compare s t) [ Ordering.gt ↦ true | _ ↦ false ]
