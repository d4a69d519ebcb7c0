-- ===== src/Segment/ParseInt/Text.antt =====
-- Go prints a counter or a time with `%d` and reads it back with `strconv.ParseInt`.
use Prim.Native.Char.{Char, code}
use device_telemetry_gateway.Common.{
  ℕ, ◌^◌, ◌+◌, ◌-◌, ◌*◌, ◌<◌, ◌≤◌, ◌≡◌, refl, List, [], ◌∷◌, some, String, arith, inl, inr,
  Bool-cases, true,
}
use device_telemetry_gateway.Common.Int.{pos}
use device_telemetry_gateway.Common.Decimal.{
  decimal, is_digit, read_numbers, read_numbers-decimal_end,
}
use device_telemetry_gateway.Segment.ParseInt.{parse_int, signed, codes, digits, number, up}

-- A text has at least one number, and the first goes on from the one before it.
read_numbers_grows :
    (acc : ℕ) (s : String) → (n : ℕ) × (ns : List ℕ) × (read_numbers acc s ≡ n ∷ ns) × (acc ≤ n)
unfolding read_numbers
read_numbers_grows acc String.[] = (acc, [], refl, omega arith)
read_numbers_grows acc (String.◌∷◌ c s) = elim (Bool-cases (is_digit (code c))) [
  | inl yes_ ↦
      let (n, ns, e, h) = read_numbers_grows (10 * acc + (code c - 48)) s in
      (n, ns, rw yes_ e, omega arith)
  | inr no_ ↦ (acc, read_numbers 0 s, rw no_ refl, omega arith)
]

-- With a single number, every character is a digit.
only_digits :
    (acc n : ℕ) (c : Char) (s : String)
    → read_numbers acc (String.◌∷◌ c s) ≡ n ∷ []
    → (is_digit (code c) ≡ true) × (read_numbers (10 * acc + (code c - 48)) s ≡ n ∷ [])
unfolding read_numbers
only_digits acc n c s h = elim (Bool-cases (is_digit (code c))) [
  | inl yes_ ↦ (yes_, ground arith)
  | inr no_ ↦ let (m, ms, e, _) = read_numbers_grows 0 s in absurd (ground arith)
]

digits-codes :
    (acc n : ℕ) (s : String)
    → read_numbers acc s ≡ n ∷ []
    → n < 2 ^ 63
    → digits acc (codes s) ≡ some n
unfolding read_numbers digits codes is_digit
digits-codes acc n String.[] h small = ground arith
digits-codes acc n (String.◌∷◌ c s) h small =
    let (d, e) = only_digits acc n c s h in
    let (m, ms, f, g) = read_numbers_grows (10 * acc + (code c - 48)) s in
    let same : m ≡ n = ground arith in
    let rest = digits-codes (10 * acc + (code c - 48)) n s e small in
    let value : acc * 10 + (code c - 48) ≡ 10 * acc + (code c - 48) = omega arith in
    rw value (ground arith)

-- `strconv.ParseInt` gets back a number below 2^63 from any text that has it as its only number.
pub parse_int-read :
    (n : ℕ) (s : String) → read_numbers 0 s ≡ n ∷ [] → n < 2 ^ 63 → parse_int s ≡ pos n
unfolding parse_int signed codes number up is_digit read_numbers
parse_int-read n String.[] h small = ground arith
parse_int-read n (String.◌∷◌ c s) h small =
    let (d, e) = only_digits 0 n c s h in
    let whole = digits-codes 0 n (String.◌∷◌ c s) h small in ground arith

pub parse_int-decimal : (n : ℕ) → n < 2 ^ 63 → parse_int (decimal n) ≡ pos n
parse_int-decimal n small = parse_int-read n (decimal n) (read_numbers-decimal_end n) small
