-- ===== src/Kafka.antt =====
-- internal/kafkaclient: what a `Produce` call can do. The broker and the client library are not in the
-- repository, so what becomes of a call is an argument of the operations that make it.
pub mod Consumer
pub mod Stream
pub mod Producer
use device_telemetry_gateway.Common.{Bool, true, false}

-- The call succeeds; it returns an error and nothing lands; or it returns an error (a timeout, a lost
-- acknowledgement) although the message lands.
pub data Outcome : Type 0 where
  acked refused unacked : Outcome

abbrev pub is_acked : Outcome → Bool
is_acked acked = true
is_acked refused = false
is_acked unacked = false

abbrev pub lands : Outcome → Bool
lands acked = true
lands refused = false
lands unacked = true
