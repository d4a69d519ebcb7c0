-- ===== src/Segment/Floats.antt =====
-- The float64 values of prices: what internal/segment asks of them.
use device_telemetry_gateway.Common.{ℕ, Bool, String}

-- `parse` is `strconv.ParseFloat` with its error ignored, and `format` is `%.2f`. No law of floating
-- point is assumed.
pub record Floats : Type 1 where
  pub Float : Type 0
  pub of_ℕ : ℕ → Float
  pub plus : Float → Float → Float
  pub at_least : Float → Float → Bool
  pub parse : String → Float
  pub format : Float → String
