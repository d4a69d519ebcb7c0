-- ===== src/Proto.antt =====
-- The protobuf messages of proto/telemetry.pb.go, proto/storefront.pb.go and
-- proto/deliverystats.pb.go, and the protobuf runtime as a parameter.
use device_telemetry_gateway.Common.{ℕ, ◌^◌, ◌<◌, ◌≡◌, List, Option, some, String, length}
use device_telemetry_gateway.Common.Int.{ℤ}

-- `value` is the bit pattern of the double (`math.Float64bits`).
pub record Reading : Type 0 where
  pub device_id : String
  pub sequence : ℕ
  pub timestamp_ms : ℤ
  pub value : ℕ

-- `attributes` is the map as a list of entries.
pub record StorefrontEvent : Type 0 where
  pub event_id : String
  pub profile_id : String
  pub event_type : String
  pub timestamp_ms : ℤ
  pub attributes : List (String × String)

pub record DeliveryWebhook : Type 0 where
  pub webhook_id : String
  pub message_id : String
  pub channel : String
  pub status : String
  pub timestamp_ms : ℤ
  pub provider : String

-- `proto.Marshal` and `proto.Unmarshal` on one message type. Marshal may fail (a string field that
-- is not UTF-8, say); what it returns reads back, and protobuf bounds it below 2 GiB.
pub record Codec (A : Type 0) : Type 0 where
  pub marshal : A → Option (List ℕ)
  pub unmarshal : List ℕ → Option A
  pub reads_back : (a : A) (b : List ℕ) → marshal a ≡ some b → unmarshal b ≡ some a
  pub fits : (a : A) (b : List ℕ) → marshal a ≡ some b → length b < 2 ^ 31
