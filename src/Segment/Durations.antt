-- ===== src/Segment/Durations.antt =====
-- `time.Duration` and `time.Time` as internal/segment/incremental.go uses them: a duration is an int64 of
-- nanoseconds, so products wrap and `Sub` stops at the ends of the range. Times are milliseconds of the Unix
-- epoch.
use device_telemetry_gateway.Common.{
  ℕ, ◌+◌, ◌-◌, ◌*◌, ◌%◌, ◌^◌, ◌≤◌, ltb, leb, if◌then◌else◌, ◌≡◌, arith,
}
use device_telemetry_gateway.Common.Int.{ℤ, pos, negsuc, ◌-ℤ◌, leb_ℤ}

-- The int64 with the low 64 bits of a product.
wrap_int64 : ℕ → ℤ
wrap_int64 n = let m = n % 2 ^ 64 in if ltb m (2 ^ 63) then pos m else negsuc (2 ^ 64 - m - 1)

clamp_int64 : ℤ → ℤ
clamp_int64 (pos n) = if ltb n (2 ^ 63) then pos n else pos (2 ^ 63 - 1)
clamp_int64 (negsuc n) = if ltb n (2 ^ 63) then negsuc n else negsuc (2 ^ 63 - 1)

abbrev pub nanoseconds : ℤ → ℤ
nanoseconds (pos n) = pos (n * 1_000_000)
nanoseconds (negsuc n) = negsuc ((n + 1) * 1_000_000 - 1)

-- `time.Duration(d) * 24 * time.Hour` and `time.Duration(h) * time.Hour`.
unfoldable pub days : ℕ → ℤ
unfolding wrap_int64
days d = wrap_int64 (d * 86_400_000_000_000)

unfoldable pub hours : ℕ → ℤ
unfolding wrap_int64
hours h = wrap_int64 (h * 3_600_000_000_000)

-- `-time.Duration(d) * 24 * time.Hour`
unfoldable pub minus_days : ℕ → ℤ
unfolding wrap_int64
minus_days d = wrap_int64 (2 ^ 64 - d * 86_400_000_000_000 % 2 ^ 64)

-- `a.Sub(b)`
unfoldable pub time_sub : ℤ → ℤ → ℤ
unfolding clamp_int64 ◌-ℤ◌
time_sub a b = clamp_int64 (nanoseconds (a -ℤ b))

-- A number of days below 2^63 nanoseconds, against the time since an earlier time.
pub days-le-time_sub :
    (a t d : ℕ)
    → d ≤ 106_751
    → t ≤ a
    → leb_ℤ (days d) (time_sub (pos a) (pos t)) ≡ leb (d * 86_400_000) (a - t)
unfolding days time_sub
days-le-time_sub a t d small early = ground arith

pub time_sub-le-hours :
    (a t h : ℕ)
    → h ≤ 2_562_047
    → t ≤ a
    → leb_ℤ (time_sub (pos a) (pos t)) (hours h) ≡ leb (a - t) (h * 3_600_000)
unfolding hours time_sub
time_sub-le-hours a t h small early = ground arith
