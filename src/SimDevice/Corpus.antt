-- ===== src/SimDevice/Corpus.antt =====
-- internal/simdevice/corpus.go: `BuildReplayCorpus`. What `rng` draws for a device is an argument, and so are the
-- clock and the bit patterns of the values.
use Prim.Native.String.{◌++◌ as join}
use device_telemetry_gateway.Common.{
  ℕ, zero, suc, ◌+◌, ◌≡◌, ◌≢◌, refl, ◌≤◌, if_neg, false, reference, List, [], ◌∷◌, ◌++◌, map,
  Distinct, contains, ℕ_discrete, tally-append, SameItems, arith,
}
use device_telemetry_gateway.Common.Int.{ℤ}
use device_telemetry_gateway.Common.Decimal.{padded}
use device_telemetry_gateway.Proto.{Reading}
use device_telemetry_gateway.Repeats.{with_repeats}
use device_telemetry_gateway.Repeats.Laws.{reference-with_repeats}
use device_telemetry_gateway.SimDevice.{DeviceStream, all_unique}

-- The indices drawn for the duplicates, and the pairs that the shuffle swaps.
pub record DeviceDraw : Type 0 where
  pub picks : List ℕ
  pub swaps : List (ℕ × ℕ)

-- `bits n` is the pattern of the float `n * 1.5`.
module _ (now : ℤ) (bits : ℕ → ℕ) where
  reading_of : ℕ → ℕ → Reading
  reading_of d i = record {
    device_id = join "dev-" (padded 5 d);
    sequence = i + 1;
    timestamp_ms = now;
    value = bits (i + 1);
  }

  -- `unique`, from index i on.
  unique_readings : ℕ → ℕ → ℕ → List Reading
  unfolding reading_of
  unique_readings d i zero = []
  unique_readings d i (suc n) = reading_of d i ∷ unique_readings d (suc i) n

  -- `BuildReplayCorpus`, from device d on; one draw for each device.
  pub build_replay_from : ℕ → ℕ → List DeviceDraw → List DeviceStream
  unfolding unique_readings with_repeats
  build_replay_from n d [] = []
  build_replay_from n d (draw ∷ draws) =
      record {
        device_id = join "dev-" (padded 5 d);
        delivery = with_repeats (unique_readings d 0 n) draw.picks draw.swaps;
      }
      ∷ build_replay_from n (suc d) draws

  pub build_replay_corpus : ℕ → List DeviceDraw → List DeviceStream
  unfolding build_replay_from
  build_replay_corpus n draws = build_replay_from n 0 draws

  -- The true readings of all devices.
  pub true_readings : ℕ → ℕ → List DeviceDraw → List Reading
  true_readings n d [] = []
  true_readings n d (draw ∷ draws) = unique_readings d 0 n ++ true_readings n (suc d) draws

  unique_readings-lacks :
      (n d i k : ℕ)
      → k ≤ i
      → contains ℕ_discrete (map (λ (r : Reading). r.sequence) (unique_readings d i n)) k ≡ false
  unfolding unique_readings contains
  unique_readings-lacks zero d i k h = refl
  unique_readings-lacks (suc n) d i k h =
      let other : k ≢ i + 1 = λ e. omega arith in
      rw (if_neg _ other) (unique_readings-lacks n d (suc i) k (omega arith))

  unique_readings-Distinct :
      (n d i : ℕ) → Distinct ℕ_discrete (map (λ (r : Reading). r.sequence) (unique_readings d i n))
  unfolding unique_readings
  unique_readings-Distinct zero d i = tt
  unique_readings-Distinct (suc n) d i = (
    unique_readings-lacks n d (suc i) (i + 1) (omega arith),
    unique_readings-Distinct n d (suc i),
  )

  all_unique-from :
      (n d : ℕ) (draws : List DeviceDraw)
      → SameItems (all_unique (build_replay_from n d draws)) (true_readings n d draws)
  unfolding all_unique build_replay_from true_readings
  all_unique-from n d [] p = refl
  all_unique-from n d (draw ∷ draws) p =
      let true_ones = unique_readings d 0 n in
      let kept =
        reference ℕ_discrete (λ (r : Reading). r.sequence) []
          (with_repeats true_ones draw.picks draw.swaps) in
      omega (
        arith,
        tally-append p kept (all_unique (build_replay_from n (suc d) draws)),
        tally-append p true_ones (true_readings n (suc d) draws),
        all_unique-from n (suc d) draws p,
        reference-with_repeats ℕ_discrete (λ (r : Reading). r.sequence) true_ones draw.picks
            draw.swaps (unique_readings-Distinct n d 0) p,
      )

  -- Whatever is drawn: of the delivery of every device, with duplicates and out of order, the oracle keeps exactly
  -- the true readings, each once.
  pub all_unique-build_replay_corpus :
      (n : ℕ) (draws : List DeviceDraw)
      → SameItems (all_unique (build_replay_corpus n draws)) (true_readings n 0 draws)
  unfolding build_replay_corpus
  all_unique-build_replay_corpus n draws = all_unique-from n 0 draws
