-- ===== src/DeliveryStats/SimWebhooks.antt =====
-- internal/deliverystats/simwebhooks.go: the simulated webhooks of outbound messages, and their delivery with
-- retries. What `rng` draws is an argument; a draw that is only compared is given by the comparisons.
use Prim.Native.String.{◌++◌ as join}
use device_telemetry_gateway.Common.{
  ℕ, zero, suc, ◌+◌, ◌*◌, ◌≡◌, ◌≢◌, ◌⊎◌, inl, inr, ◌<◌, refl, sym, ap, ◌∙◌, if◌then◌else◌, Bool,
  false, List, [], ◌∷◌, map, String, String_discrete, Distinct, contains, SameItems, if_neg, arith,
}
use device_telemetry_gateway.Common.Int.{ℤ, pos, ◌+ℤ◌}
use device_telemetry_gateway.Common.Decimal.{
  decimal, padded, is_digit, read_numbers, read_numbers_dash, read_numbers-before,
  read_numbers-nil_before, read_numbers-decimal_end,
}
use device_telemetry_gateway.Proto.{DeliveryWebhook}
use device_telemetry_gateway.DeliveryStats.{webhook_key, reference_dedup}
use device_telemetry_gateway.Repeats.{with_repeats}
use device_telemetry_gateway.Repeats.Laws.{reference-with_repeats}

pub record Channel : Type 0 where
  pub name : String
  pub provider : String

-- `Channels[i]`; the index is below 3.
pub channels : ℕ → Channel
channels zero = record { name = "email"; provider = "sendgrid" }
channels (suc zero) = record { name = "sms"; provider = "twilio" }
channels (suc (suc i)) = record { name = "whatsapp"; provider = "meta_whatsapp" }

-- The draws for one message: the index of its channel, the time `sentAt` in milliseconds, whether the outcome is
-- below 0.90 and below 0.97, and `rng.Intn(30)`.
pub record MessageDraw : Type 0 where
  pub channel : ℕ
  pub sent_at : ℤ
  pub below_90 : Bool
  pub below_97 : Bool
  pub delay : ℕ

-- `nextID`: the k-th webhook of message m.
webhook_id_of : ℕ → ℕ → String
webhook_id_of m k = join "wh-" (join (padded 9 m) (join "-" (decimal k)))

webhook_of : ℕ → MessageDraw → ℕ → String → ℤ → DeliveryWebhook
unfolding webhook_id_of channels
webhook_of m d k status time = record {
  webhook_id = webhook_id_of m k;
  message_id = join "msg-" (padded 9 m);
  channel = (channels d.channel).name;
  status = status;
  timestamp_ms = time;
  provider = (channels d.channel).provider;
}

final_status : MessageDraw → String
final_status d = if d.below_90 then "delivered" else if d.below_97 then "bounced" else "failed"

-- `Build`, from message m on.
unfoldable pub build_from : ℕ → List MessageDraw → List DeliveryWebhook
unfolding webhook_of final_status ◌+ℤ◌
build_from m [] = []
build_from m (d ∷ ds) =
    webhook_of m d 0 "sent" d.sent_at
    ∷ webhook_of m d 1 (final_status d) (d.sent_at +ℤ pos ((1 + d.delay) * 1000))
    ∷ build_from (suc m) ds

pub build : List MessageDraw → List DeliveryWebhook
unfolding build_from
build = build_from 0

unfoldable pub with_retries : List DeliveryWebhook → List ℕ → List (ℕ × ℕ) → List DeliveryWebhook
unfolding with_repeats
with_retries = with_repeats

read_numbers-webhook_id_of : (m k : ℕ) → read_numbers 0 (webhook_id_of m k) ≡ 0 ∷ 0 ∷ 0 ∷ m ∷ k ∷ []
unfolding webhook_id_of is_digit
read_numbers-webhook_id_of m k =
    let tail = join (padded 9 m) (join "-" (decimal k)) in
    read_numbers-before "w" "h-" tail refl (
      read_numbers-before "h" "-" tail refl (
        read_numbers-before "-" "" tail refl (
          read_numbers-nil_before tail
            (read_numbers_dash 9 m (decimal k) (read_numbers-decimal_end k)))))

webhook_id_of_ne : (m n j k : ℕ) → (m ≢ n) ⊎ (j ≢ k) → webhook_id_of m j ≢ webhook_id_of n k
webhook_id_of_ne m n j k h e =
    let same : 0 ∷ 0 ∷ 0 ∷ m ∷ j ∷ [] ≡ 0 ∷ 0 ∷ 0 ∷ n ∷ k ∷ [] =
      sym (read_numbers-webhook_id_of m j)
      ∙ ap (read_numbers 0) e
      ∙ read_numbers-webhook_id_of n k in
    ground arith

-- The webhooks of later messages have other ids.
build_from-lacks :
    (ds : List MessageDraw) (m n k : ℕ)
    → m < n
    → contains String_discrete (map webhook_key (build_from n ds)) (webhook_id_of m k) ≡ false
unfolding build_from contains
build_from-lacks [] m n k h = refl
build_from-lacks (d ∷ ds) m n k h =
    let other = λ (j : ℕ). webhook_id_of_ne m n k j (inl (λ e. omega arith)) in
    rw (if_neg _ (other 0), if_neg _ (other 1)) (build_from-lacks ds m (suc n) k (omega arith))

build_from-Distinct :
    (ds : List MessageDraw) (m : ℕ) → Distinct String_discrete (map webhook_key (build_from m ds))
unfolding build_from contains
build_from-Distinct [] m = tt
build_from-Distinct (d ∷ ds) m =
    let other = webhook_id_of_ne m m 0 1 (inr (λ e. omega arith)) in
    (
      rw (if_neg _ other) (build_from-lacks ds m (suc m) 0 (omega arith)),
      (build_from-lacks ds m (suc m) 1 (omega arith), build_from-Distinct ds (suc m)),
    )

-- The message ids and the statuses that two webhooks for each message have, from message m on.
abbrev pub ids_twice : ℕ → List MessageDraw → List String
ids_twice m [] = []
ids_twice m (d ∷ ds) = let id = join "msg-" (padded 9 m) in id ∷ id ∷ ids_twice (suc m) ds

abbrev pub sent_and_final : List MessageDraw → List String
sent_and_final [] = []
sent_and_final (d ∷ ds) =
    "sent"
    ∷ (if d.below_90 then "delivered" else if d.below_97 then "bounced" else "failed")
    ∷ sent_and_final ds

build_from-ids_twice :
    (ds : List MessageDraw) (m : ℕ) → map (λ w. w.message_id) (build_from m ds) ≡ ids_twice m ds
unfolding build_from
build_from-ids_twice [] m = refl
build_from-ids_twice (d ∷ ds) m =
    let id = join "msg-" (padded 9 m) in ap (λ t. id ∷ id ∷ t) (build_from-ids_twice ds (suc m))

build_from-sent_and_final :
    (ds : List MessageDraw) (m : ℕ) → map (λ w. w.status) (build_from m ds) ≡ sent_and_final ds
unfolding build_from
build_from-sent_and_final [] m = refl
build_from-sent_and_final (d ∷ ds) m =
    let last = if d.below_90 then "delivered" else if d.below_97 then "bounced" else "failed" in
    ap (λ t. "sent" ∷ last ∷ t) (build_from-sent_and_final ds (suc m))

-- Whatever is drawn: every message has exactly two webhooks, first "sent", then its outcome, so that the
-- message ids of the webhooks are, in order, each message's id twice; and of their delivery with any retries,
-- in any order, the reference deduplication keeps exactly the webhooks of the messages, each once.
pub with_retries-build :
    (ds : List MessageDraw) (picks : List ℕ) (swaps : List (ℕ × ℕ))
    → (map (λ w. w.message_id) (build ds) ≡ ids_twice 0 ds)
      × (map (λ w. w.status) (build ds) ≡ sent_and_final ds)
      × SameItems (reference_dedup (with_retries (build ds) picks swaps)) (build ds)
unfolding build with_retries reference_dedup
with_retries-build ds picks swaps = (
  build_from-ids_twice ds 0,
  build_from-sent_and_final ds 0,
  reference-with_repeats String_discrete webhook_key (build_from 0 ds) picks swaps
      (build_from-Distinct ds 0),
)
