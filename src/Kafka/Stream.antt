-- ===== src/Kafka/Stream.antt =====
-- internal/kafkaclient/storefront_consumer.go and delivery_consumer.go: the stream readers, one goroutine for
-- each partition that decodes messages into a channel. The two files have the same text for their two
-- message types. Which messages a `kafka.Reader` returns, and when it fails, is the library's: each step is
-- possible at any time.
pub mod Flow
pub mod Progress
use device_telemetry_gateway.Common.{
  ℕ, ◌+◌, ◌<◌, ◌≡◌, Bool, true, false, List, [], ◌∷◌, ◌++◌, map, Option, none, some, length,
}
use device_telemetry_gateway.Common.Int.{ℤ, pos, ◌+ℤ◌}
use device_telemetry_gateway.Proto.{StorefrontEvent, Codec}

pub record Record : Type 0 where
  pub offset : ℕ
  pub value : List ℕ

-- One goroutine: the records of its partition that its reader has not returned yet, the offset of the
-- reader, the decoded message that waits for the channel, and whether the goroutine has returned.
pub record Reader (A : Type 0) : Type 0 where
  pub ahead : List Record
  pub offset : ℤ
  pub hand : Option A
  pub stopped : Bool

pub record Stream (A : Type 0) : Type 0 where
  pub readers : List (Reader A)
  pub channel : List A
  pub cancelled : Bool
  pub received : List A  -- what the consumer took from the channel
  pub dropped : List A  -- what a goroutine held when it returned

abbrev pub channel_capacity : ℕ
channel_capacity = 4096

-- `NewDeliveryStreamReader` and `Messages`. `first_offset` is the constant of the library that `SetOffset`
-- is called with.
new_reader : {A : Type 0} → ℤ → List Record → Reader A
new_reader first_offset records = record {
  ahead = records;
  offset = first_offset;
  hand = none;
  stopped = false;
}

unfoldable pub new_stream : {A : Type 0} → ℤ → List (List Record) → Stream A
unfolding new_reader
new_stream first_offset partitions = record {
  readers = map (new_reader first_offset) partitions;
  channel = [];
  cancelled = false;
  received = [];
  dropped = [];
}

-- `CurrentOffsets`: the offset of each partition, in their order.
unfoldable pub current_offsets : {A : Type 0} → Stream A → List ℤ
current_offsets s = map (λ r. r.offset) s.readers

-- `Close`: every reader is closed, and the first error is kept.
unfoldable pub close_error : {E : Type 0} → List (Option E) → Option E
close_error [] = none
close_error (some e ∷ results) = some e
close_error (none ∷ results) = close_error results

module _ {A : Type 0} (codec : Codec A) where
  -- `ReadMessage` returns a record, and `Unmarshal` decodes it or the loop goes on.
  unfoldable pub read_message : Reader A → Record → List Record → Reader A
  read_message r m ms = record r {
    ahead = ms;
    offset = pos (m.offset + 1);
    hand = codec.unmarshal m.value;
  }

  pub data Step (s : Stream A) : Stream A → Type 0 where
    read :
        (front back : List (Reader A)) (r : Reader A) (m : Record) (ms : List Record)
        → s.readers ≡ front ++ (r ∷ back)
        → r.stopped ≡ false
        → r.hand ≡ none
        → r.ahead ≡ m ∷ ms
        → Step s (record s { readers = front ++ (read_message r m ms ∷ back) })
    -- `ReadMessage` returns an error, such as that of a cancelled context.
    fail :
        (front back : List (Reader A)) (r : Reader A)
        → s.readers ≡ front ++ (r ∷ back)
        → r.stopped ≡ false
        → r.hand ≡ none
        → Step s (record s { readers = front ++ (record r { stopped = true } ∷ back) })
    send :
        (front back : List (Reader A)) (r : Reader A) (a : A)
        → s.readers ≡ front ++ (r ∷ back)
        → r.stopped ≡ false
        → r.hand ≡ some a
        → length s.channel < channel_capacity
        → Step s (record s {
          readers = front ++ (record r { hand = none } ∷ back);
          channel = s.channel ++ (a ∷ []);
        })
    -- `case <-ctx.Done()`
    give_up :
        (front back : List (Reader A)) (r : Reader A) (a : A)
        → s.readers ≡ front ++ (r ∷ back)
        → r.stopped ≡ false
        → r.hand ≡ some a
        → s.cancelled ≡ true
        → Step s (record s {
          readers = front ++ (record r { hand = none; stopped = true } ∷ back);
          dropped = a ∷ s.dropped;
        })
    -- The consumer receives.
    receive :
        (a : A) (rest : List A)
        → s.channel ≡ a ∷ rest
        → Step s (record s { channel = rest; received = s.received ++ (a ∷ []) })
    cancel : Step s (record s { cancelled = true })

  pub data Reach (s : Stream A) : Stream A → Type 0 where
    here : Reach s s
    next : {t u : Stream A} → Reach s t → Step t u → Reach s u

-- The instances of the two files.
abbrev pub new_storefront_stream : ℤ → List (List Record) → Stream StorefrontEvent
new_storefront_stream = new_stream

abbrev pub StorefrontStep :
    Codec StorefrontEvent → Stream StorefrontEvent → Stream StorefrontEvent → Type 0
StorefrontStep = Step

abbrev pub storefront_current_offsets : Stream StorefrontEvent → List ℤ
storefront_current_offsets = current_offsets

abbrev pub storefront_close_error : {E : Type 0} → List (Option E) → Option E
storefront_close_error = close_error
