-- ===== src/WsServer.antt =====
-- internal/wsserver/server.go: one connection of a device. What the connection delivers before it closes
-- is the list of its frames.
pub mod Laws
use device_telemetry_gateway.Common.{ℕ, List, [], ◌∷◌, Option, none, some}
use device_telemetry_gateway.Proto.{Reading, Codec}
use device_telemetry_gateway.Kafka.{Outcome}
use device_telemetry_gateway.Ingest.Spool.{WriteFault}
use device_telemetry_gateway.Ingest.Pipeline
use device_telemetry_gateway.Ingest.Pipeline.{Pipeline}

module _ (codec : Codec Reading) where
  -- A frame that does not parse is dropped; an error of `Ingest` is only logged.
  pub handle_frame : Pipeline → Option Reading → (Reading → Outcome × WriteFault) → Pipeline
  handle_frame p none env = p
  handle_frame p (some r) env =
      let (outcome, fault) = env r in (Pipeline.ingest codec p r outcome fault).0

  -- `handleIngest`, up to the read error that ends the connection.
  pub handle_ingest : Pipeline → List (List ℕ) → (Reading → Outcome × WriteFault) → Pipeline
  unfolding handle_frame
  handle_ingest p [] env = p
  handle_ingest p (message ∷ frames) env =
      handle_ingest (handle_frame p (codec.unmarshal message) env) frames env
