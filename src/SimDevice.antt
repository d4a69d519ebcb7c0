-- ===== src/SimDevice.antt =====
-- internal/simdevice/corpus.go: the streams of the simulated devices, and the readings that a perfect
-- deduplication keeps of them.
pub mod Oracle
pub mod Corpus
use device_telemetry_gateway.Common.{List, [], ◌∷◌, ◌++◌, String, ℕ_discrete, reference}
use device_telemetry_gateway.Proto.{Reading}

pub record DeviceStream : Type 0 where
  pub device_id : String
  pub delivery : List Reading

-- `seen` is a new map for every stream.
pub all_unique : List DeviceStream → List Reading
unfolding reference
all_unique [] = []
all_unique (s ∷ ss) =
    reference ℕ_discrete (λ (r : Reading). r.sequence) [] s.delivery ++ all_unique ss
