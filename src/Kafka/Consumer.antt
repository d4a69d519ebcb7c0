-- ===== src/Kafka/Consumer.antt =====
-- internal/kafkaclient/consumer.go, storefront_consumer.go and delivery_consumer.go: one pass over every
-- partition of a topic. The three files have the same text for their three message types. What the
-- broker answers is an argument.
pub mod Laws
use device_telemetry_gateway.Common.{
  ℕ, ◌-◌, ◌*◌, ◌^◌, take, leb, if◌then◌else◌, Bool, true, false, List, [], ◌∷◌, ◌++◌, Option, none,
  some, length,
}
use device_telemetry_gateway.Proto.{Reading, StorefrontEvent, DeliveryWebhook, Codec}

-- The next message of a batch: its value, how many bytes `Read` reports if the value does not fit in the
-- buffer, and whether `Read` returns another error.
pub record BatchRead : Type 0 where
  pub bytes : List ℕ
  pub filled : ℕ
  pub error : Bool

pub data PartitionFault : Type 0 where
  no_fault leader_unreachable offsets_unread seek_fails : PartitionFault

-- The offsets of a partition, and the reads of its batch. After the last of `reads` comes an error
-- without bytes.
pub record Partition : Type 0 where
  pub first : ℕ
  pub last : ℕ
  pub reads : List BatchRead
  pub fault : PartitionFault

module _ {A : Type 0} (codec : Codec A) where
  add_decoded : List A → Option A → List A
  add_decoded out none = out
  add_decoded out (some a) = out ++ (a ∷ [])

  abbrev in_buffer : ℕ → BatchRead → List ℕ
  in_buffer buffer r =
      if leb (length r.bytes) buffer then r.bytes else take r.filled (take buffer r.bytes)

  -- A value that does not fit in the buffer is an error too, `io.ErrShortBuffer`.
  abbrev stops : ℕ → BatchRead → Bool
  stops buffer r = if leb (length r.bytes) buffer then r.error else true

  -- A read of no bytes adds nothing.
  add_bytes : List A → List ℕ → List A
  unfolding add_decoded
  add_bytes out [] = out
  add_bytes out (b ∷ bs) = add_decoded out (codec.unmarshal (b ∷ bs))

  -- The loop over the batch, with a buffer of the given size, until an error or until `wanted` messages are
  -- decoded.
  pub batch_loop : ℕ → ℕ → List A → List BatchRead → List A
  unfolding add_bytes
  batch_loop buffer wanted out [] = out
  batch_loop buffer wanted out (r ∷ rs) =
      let out' = add_bytes out (in_buffer buffer r) in
      let rest = batch_loop buffer wanted out' rs in
      if stops buffer r then out' else if leb wanted (length out') then out' else rest

  read_offsets_on : ℕ → Partition → PartitionFault → Option (List A)
  unfolding batch_loop
  read_offsets_on buffer p leader_unreachable = none
  read_offsets_on buffer p offsets_unread = none
  read_offsets_on buffer p seek_fails = if leb p.last p.first then some [] else none
  read_offsets_on buffer p no_fault =
      some (if leb p.last p.first then [] else batch_loop buffer (p.last - p.first) [] p.reads)

  pub read_partition : ℕ → Partition → Option (List A)
  unfolding read_offsets_on
  read_partition buffer p = read_offsets_on buffer p p.fault

  append_results : Option (List A) → Option (List A) → Option (List A)
  append_results (some xs) (some ys) = some (xs ++ ys)
  append_results _ _ = none

  consume_partitions : ℕ → List Partition → Option (List A)
  unfolding read_partition append_results
  consume_partitions buffer [] = some []
  consume_partitions buffer (p ∷ ps) =
      append_results (read_partition buffer p) (consume_partitions buffer ps)

  -- `ConsumeAvailable`, with the size of the buffer that its file has; `none` is an error, also of the dial or
  -- of `ReadPartitions`.
  pub consume_available : ℕ → Option (List Partition) → Option (List A)
  unfolding consume_partitions
  consume_available buffer none = none
  consume_available buffer (some ps) = consume_partitions buffer ps

add_offsets : ℕ × ℕ → Option (List (ℕ × ℕ)) → Option (List (ℕ × ℕ))
add_offsets o none = none
add_offsets o (some os) = some (o ∷ os)

offsets_on : Partition → PartitionFault → Option (List (ℕ × ℕ)) → Option (List (ℕ × ℕ))
unfolding add_offsets
offsets_on p leader_unreachable rest = none
offsets_on p offsets_unread rest = none
offsets_on p _ rest = add_offsets (p.first, p.last) rest

-- `PartitionOffsets` on the partitions of the topic, in their order.
pub partition_offsets : List Partition → Option (List (ℕ × ℕ))
unfolding offsets_on
partition_offsets [] = some []
partition_offsets (p ∷ ps) = offsets_on p p.fault (partition_offsets ps)

-- The instances of the three files, with their buffers.
abbrev pub reading_buffer : ℕ
reading_buffer = 2 ^ 20

abbrev pub event_buffer : ℕ
event_buffer = 4 * 2 ^ 20

abbrev pub consume_available_reading :
    Codec Reading → Option (List Partition) → Option (List Reading)
consume_available_reading codec ps = consume_available codec reading_buffer ps

abbrev pub consume_available_storefront :
    Codec StorefrontEvent → Option (List Partition) → Option (List StorefrontEvent)
consume_available_storefront codec ps = consume_available codec event_buffer ps

abbrev pub read_storefront_partition :
    Codec StorefrontEvent → Partition → Option (List StorefrontEvent)
read_storefront_partition codec p = read_partition codec event_buffer p

abbrev pub consume_available_delivery :
    Codec DeliveryWebhook → Option (List Partition) → Option (List DeliveryWebhook)
consume_available_delivery codec ps = consume_available codec event_buffer ps

abbrev pub read_delivery_partition :
    Codec DeliveryWebhook → Partition → Option (List DeliveryWebhook)
read_delivery_partition codec p = read_partition codec event_buffer p

abbrev pub delivery_partition_offsets : List Partition → Option (List (ℕ × ℕ))
delivery_partition_offsets ps = partition_offsets ps
