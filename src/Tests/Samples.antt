-- ===== src/Tests/Samples.antt =====
-- Test data, and a small codec that stands for protobuf.
use device_telemetry_gateway.Common.{
  ℕ, zero, suc, sym, ◌^◌, ◌<◌, ◌≡◌, refl, arith, List, [], ◌∷◌, Option, none, some, String,
  String_discrete, length,
}
use device_telemetry_gateway.Common.Int.{ℤ, pos, negsuc}
use device_telemetry_gateway.Proto.{Reading, StorefrontEvent, DeliveryWebhook, Codec}

abbrev pub reading : String → ℕ → Reading
reading device_id sequence = record {
  device_id = device_id;
  sequence = sequence;
  timestamp_ms = pos 1000;
  value = 0;
}

abbrev pub event : String → StorefrontEvent
event id = record {
  event_id = id;
  profile_id = "p1";
  event_type = "PURCHASE";
  timestamp_ms = pos 1000;
  attributes = [];
}

abbrev pub webhook : String → DeliveryWebhook
webhook id = record {
  webhook_id = id;
  message_id = "m1";
  channel = "SMS";
  status = "SENT";
  timestamp_ms = pos 1000;
  provider = "x";
}

abbrev encode_time : ℤ → List ℕ
encode_time (pos n) = 0 ∷ n ∷ []
encode_time (negsuc n) = 1 ∷ n ∷ []

-- A reading of the device "a"; those of other devices cannot be marshalled.
abbrev marshal_if : (r : Reading) → Dec (r.device_id ≡ "a") → Option (List ℕ)
marshal_if r (yes _) = some (r.sequence ∷ r.value ∷ encode_time r.timestamp_ms)
marshal_if r (no _) = none

abbrev marshal : Reading → Option (List ℕ)
marshal r = marshal_if r (String_discrete r.device_id "a")

abbrev decode_time : ℕ → ℕ → ℤ
decode_time zero n = pos n
decode_time (suc _) n = negsuc n

abbrev unmarshal : List ℕ → Option Reading
unmarshal (s ∷ v ∷ sign ∷ n ∷ []) =
    some (record { device_id = "a"; sequence = s; timestamp_ms = decode_time sign n; value = v })
unmarshal _ = none

unmarshal-encode_time :
    (r : Reading)
    → r.device_id ≡ "a"
    → unmarshal (r.sequence ∷ r.value ∷ encode_time r.timestamp_ms) ≡ some r
unmarshal-encode_time r p = same r.timestamp_ms refl
  where
    same : (t : ℤ) → r.timestamp_ms ≡ t → unmarshal (r.sequence ∷ r.value ∷ encode_time t) ≡ some r
    same (pos n) e = λ i. some (record {
      device_id = sym p i;
      sequence = r.sequence;
      timestamp_ms = sym e i;
      value = r.value;
    })
    same (negsuc n) e = λ i. some (record {
      device_id = sym p i;
      sequence = r.sequence;
      timestamp_ms = sym e i;
      value = r.value;
    })

length-encode_time : (t : ℤ) → length (encode_time t) ≡ 2
length-encode_time (pos n) = refl
length-encode_time (negsuc n) = refl

pub reads_back_if :
    (r : Reading) (b : List ℕ) (d : Dec (r.device_id ≡ "a"))
    → marshal_if r d ≡ some b
    → unmarshal b ≡ some r
reads_back_if r b (yes p) e =
    let same : r.sequence ∷ r.value ∷ encode_time r.timestamp_ms ≡ b = ground arith in
    rw (← same) (unmarshal-encode_time r p)
reads_back_if r b (no p) e = ground arith

pub fits_if :
    (r : Reading) (b : List ℕ) (d : Dec (r.device_id ≡ "a"))
    → marshal_if r d ≡ some b
    → length b < 2 ^ 31
fits_if r b (yes p) e =
    let same : r.sequence ∷ r.value ∷ encode_time r.timestamp_ms ≡ b = ground arith in
    rw (← same) (omega (arith, length-encode_time r.timestamp_ms))
fits_if r b (no p) e = ground arith

abbrev pub test_codec : Codec Reading
test_codec = record {
  marshal = marshal;
  unmarshal = unmarshal;
  reads_back = λ r b. reads_back_if r b (String_discrete r.device_id "a");
  fits = λ r b. fits_if r b (String_discrete r.device_id "a");
}
