-- ===== src/Commands/Scale/Loads.antt =====
-- The batches of the bulk load cover every row number once.
use device_telemetry_gateway.Common.{
  ℕ, zero, suc, ◌+◌, ◌-◌, ◌*◌, ◌/◌, ◌≤◌, ◌<◌, ◌≡◌, refl, ap, ◌∙◌, ltb, if◌then◌else◌, ◌∷◌, ◌++◌,
  Bool-cases, inl, inr, append-nil, arith,
}
use device_telemetry_gateway.Commands.Scale.{
  Load, num_batches, size_of, rows_from, rows_of, load_from, bulk_load,
}

rows_from-append : (s m n : ℕ) → rows_from s m ++ rows_from (s + m) n ≡ rows_from s (m + n)
rows_from-append s zero n = ap (λ k. rows_from k n) (omega arith) ∙ ap (rows_from s) (omega arith)
rows_from-append s (suc m) n =
    let shifted : s + suc m ≡ suc s + m = omega arith in
    let longer : suc (m + n) ≡ suc m + n = omega arith in
    ap (λ k. s ∷ (rows_from (suc s) m ++ rows_from k n)) shifted
    ∙ ap (◌∷◌ s) (rows_from-append (suc s) m n)
    ∙ ap (rows_from s) longer

suc_mul : (b n : ℕ) → suc b * n ≡ b * n + n
suc_mul b n = grind arith

-- How many of the next `n` rows from `start` on lie below the total.
abbrev below : ℕ → ℕ → ℕ → ℕ
below total start n = if ltb total (start + n) then total - start else n

size_of-below :
    (l : Load) (b : ℕ) → size_of l b ≡ below l.total_events (b * l.batch_size) l.batch_size
unfolding size_of
size_of-below l b = refl

-- Two ranges, one after the other, cut off by the total.
join_rows :
    (total start m n : ℕ)
    → rows_from start (below total start m) ++ rows_from (start + m) (below total (start + m) n)
      ≡ rows_from start (below total start (m + n))
join_rows total start m n = elim (Bool-cases (ltb total (start + m))) [
  | inl short ↦
      let nothing : below total (start + m) n ≡ 0 = ground arith in
      let same : below total start m ≡ below total start (m + n) = ground arith in
      ap (λ k. rows_from start (below total start m) ++ rows_from (start + m) k) nothing
      ∙ append-nil (rows_from start (below total start m))
      ∙ ap (rows_from start) same
  | inr full ↦
      let all : below total start m ≡ m = ground arith in
      let same : m + below total (start + m) n ≡ below total start (m + n) = ground arith in
      ap (λ k. rows_from start k ++ rows_from (start + m) (below total (start + m) n)) all
      ∙ rows_from-append start m (below total (start + m) n)
      ∙ ap (rows_from start) same
]

-- The rows of the batches from b on are one range.
load_from-rows :
    (l : Load) (b n : ℕ)
    → load_from l b n
      ≡ rows_from (b * l.batch_size) (below l.total_events (b * l.batch_size) (n * l.batch_size))
unfolding load_from rows_of
load_from-rows l b zero =
    let nothing : 0 ≡ below l.total_events (b * l.batch_size) (0 * l.batch_size) = ground arith in
    ap (rows_from (b * l.batch_size)) nothing
load_from-rows l b (suc n) =
    let start = b * l.batch_size in
    ap (λ k. rows_from start k ++ load_from l (suc b) n) (size_of-below l b)
    ∙ ap (λ rows. rows_from start (below l.total_events start l.batch_size) ++ rows)
        (load_from-rows l (suc b) n
          ∙ ap (λ k. rows_from k (below l.total_events k (n * l.batch_size)))
              (suc_mul b l.batch_size))
    ∙ join_rows l.total_events start l.batch_size (n * l.batch_size)
    ∙ ap (λ k. rows_from start (below l.total_events start k)) (rows_of_batches n l.batch_size)
  where
    rows_of_batches : (n s : ℕ) → s + n * s ≡ suc n * s
    rows_of_batches n s = grind arith

enough_batches : (t s : ℕ) → 0 < s → t ≤ (t + s - 1) / s * s
enough_batches t s h = grind arith

-- With batches of at least one row, the load numbers its rows 0, 1, 2 and so on up to the wanted total: no number is
-- left out or used twice, whether or not the total is a multiple of the batch size.
pub bulk_load-rows_from : (l : Load) → 0 < l.batch_size → bulk_load l ≡ rows_from 0 l.total_events
unfolding bulk_load num_batches
bulk_load-rows_from l h =
    let wanted = num_batches l * l.batch_size in
    let all : below l.total_events 0 wanted ≡ l.total_events =
      ground (arith, enough_batches l.total_events l.batch_size h) in
    load_from-rows l 0 (num_batches l)
    ∙ ap (λ start. rows_from start (below l.total_events start wanted)) (zero_mul l.batch_size)
    ∙ ap (rows_from 0) all
  where
    zero_mul : (n : ℕ) → 0 * n ≡ 0
    zero_mul n = omega arith
