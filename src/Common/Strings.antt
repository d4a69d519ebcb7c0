-- ===== src/Common/Strings.antt =====
-- Equality of texts as a decision.
use Prim.Native.String.{String}
use mathlib.Core.Path.{◌≡◌}
use mathlib.Core.Logic.{inl, inr}
use mathlib.Core.Bool.{false}
use text.Mathlib.Text.{◌==◌ as str_eq}
use text.Mathlib.TextEquality.{eq_iff}
use native.Mathlib.Omega.{arith}
use device_telemetry_gateway.Common.Tests.{Bool-cases}

pub ne_of_unequal : (s t : String) → str_eq s t ≡ false → ¬ (s ≡ t)
ne_of_unequal s t e p = ground (arith, eq_iff s t)

unfoldable pub String_discrete : Discrete String
unfolding Bool-cases
String_discrete s t = elim (Bool-cases (str_eq s t)) [
  | inl e ↦ yes ((eq_iff s t).0 e)
  | inr e ↦ no (ne_of_unequal s t e)
]
