-- ===== src/Common/Decimal.antt =====
-- Go's `%d` and `%0wd` on numbers, and a reader that gets the numbers of a text back.
use Prim.Native.Char.{Char, code}
use Prim.Native.String.{String, ◌++◌ as join, slice, len}
use Prim.Native.Nat.{ℕ, zero, suc, ◌+◌, ◌-◌, ◌*◌, ◌/◌, ◌%◌, ◌<◌}
use mathlib.Core.Path.{◌≡◌, refl, sym, ap, ◌∙◌}
use mathlib.Core.Bool.{Bool, true, false}
use mathlib.Core.Logic.{inl, inr}
use mathlib.Core.List.{List, [], ◌∷◌}
use native.Mathlib.Omega.{arith}
use text.Mathlib.TextLemmas.{append_assoc as join_assoc, nil-append, cons-append, append-nil}
use device_telemetry_gateway.Common.Tests.{ltb, leb, if◌then◌else◌, Bool-cases}

digit : ℕ → String
digit n = slice "0123456789" n (n + 1)

decimal_loop : ℕ → ℕ → String
unfolding digit
decimal_loop zero n = ""
decimal_loop (suc fuel) n =
    let front = decimal_loop fuel (n / 10) in
    if ltb n 10 then digit n else join front (digit (n % 10))

-- `%d`. A number has at most as many digits as its value plus one.
unfoldable pub decimal : ℕ → String
unfolding decimal_loop
decimal n = decimal_loop (n + 1) n

zeros : ℕ → String
zeros zero = ""
zeros (suc n) = join "0" (zeros n)

-- `%0wd`
unfoldable pub padded : ℕ → ℕ → String
unfolding zeros decimal
padded w n = join (zeros (w - len (decimal n))) (decimal n)

unfoldable pub is_digit : ℕ → Bool
is_digit c = if leb 48 c then leb c 57 else false

-- The numbers of a text, between its other characters; `acc` is what the digits before it make.
unfoldable pub read_numbers : ℕ → String → List ℕ
unfolding is_digit
read_numbers acc String.[] = acc ∷ []
read_numbers acc (String.◌∷◌ c s) =
    let more = read_numbers (10 * acc + (code c - 48)) s in
    let rest = read_numbers 0 s in if is_digit (code c) then more else acc ∷ rest

read_numbers-cons :
    (acc : ℕ) (c : Char) (rest : String)
    → is_digit (code c) ≡ true
    → read_numbers acc (join (String.◌∷◌ c String.[]) rest)
      ≡ read_numbers (10 * acc + (code c - 48)) rest
unfolding read_numbers
read_numbers-cons acc c rest h = rw (cons-append c String.[] rest, nil-append rest, h)

read_numbers-digit :
    (acc n : ℕ) (rest : String)
    → n < 10
    → read_numbers acc (join (digit n) rest) ≡ read_numbers (10 * acc + n) rest
unfolding is_digit digit
read_numbers-digit acc zero rest h = read_numbers-cons acc "0" rest refl
read_numbers-digit acc (suc zero) rest h = read_numbers-cons acc "1" rest refl
read_numbers-digit acc (suc (suc zero)) rest h = read_numbers-cons acc "2" rest refl
read_numbers-digit acc (suc (suc (suc zero))) rest h = read_numbers-cons acc "3" rest refl
read_numbers-digit acc (suc (suc (suc (suc zero)))) rest h = read_numbers-cons acc "4" rest refl
read_numbers-digit acc (suc (suc (suc (suc (suc zero))))) rest h =
    read_numbers-cons acc "5" rest refl
read_numbers-digit acc (suc (suc (suc (suc (suc (suc zero)))))) rest h =
    read_numbers-cons acc "6" rest refl
read_numbers-digit acc (suc (suc (suc (suc (suc (suc (suc zero))))))) rest h =
    read_numbers-cons acc "7" rest refl
read_numbers-digit acc (suc (suc (suc (suc (suc (suc (suc (suc zero)))))))) rest h =
    read_numbers-cons acc "8" rest refl
read_numbers-digit acc (suc (suc (suc (suc (suc (suc (suc (suc (suc zero))))))))) rest h =
    read_numbers-cons acc "9" rest refl
read_numbers-digit acc (suc (suc (suc (suc (suc (suc (suc (suc (suc (suc n)))))))))) rest h =
    absurd (omega arith)

read_numbers-decimal_loop :
    (fuel n : ℕ) (rest : String)
    → n < fuel
    → read_numbers 0 (join (decimal_loop fuel n) rest) ≡ read_numbers n rest
unfolding decimal_loop
read_numbers-decimal_loop zero n rest h = absurd (omega arith)
read_numbers-decimal_loop (suc fuel) n rest h = elim (Bool-cases (ltb n 10)) [
  | inl small ↦
      rw small
        (read_numbers-digit 0 n rest (ground arith) ∙ ap (λ m. read_numbers m rest) (omega arith))
  | inr large ↦
      let value : 10 * (n / 10) + n % 10 ≡ n = omega arith in
      rw large (
        ap (read_numbers 0) (join_assoc (decimal_loop fuel (n / 10)) (digit (n % 10)) rest)
        ∙ read_numbers-decimal_loop fuel (n / 10) (join (digit (n % 10)) rest) (ground arith)
        ∙ read_numbers-digit (n / 10) (n % 10) rest (omega arith)
        ∙ ap (λ m. read_numbers m rest) value)
]

pub read_numbers-decimal :
    (n : ℕ) (rest : String) → read_numbers 0 (join (decimal n) rest) ≡ read_numbers n rest
unfolding decimal
read_numbers-decimal n rest = read_numbers-decimal_loop (n + 1) n rest (omega arith)

read_numbers-zeros :
    (k : ℕ) (rest : String) → read_numbers 0 (join (zeros k) rest) ≡ read_numbers 0 rest
unfolding zeros is_digit
read_numbers-zeros zero rest = ap (read_numbers 0) (nil-append rest)
read_numbers-zeros (suc k) rest =
    ap (read_numbers 0) (join_assoc "0" (zeros k) rest)
    ∙ read_numbers-cons 0 "0" (join (zeros k) rest) refl
    ∙ read_numbers-zeros k rest

pub read_numbers-padded :
    (w n : ℕ) (rest : String) → read_numbers 0 (join (padded w n) rest) ≡ read_numbers n rest
unfolding padded
read_numbers-padded w n rest =
    ap (read_numbers 0) (join_assoc (zeros (w - len (decimal n))) (decimal n) rest)
    ∙ read_numbers-zeros (w - len (decimal n)) (join (decimal n) rest)
    ∙ read_numbers-decimal n rest

-- A character that is no digit ends a number.
pub read_numbers-other :
    (acc : ℕ) (c : Char) (s rest : String)
    → is_digit (code c) ≡ false
    → read_numbers acc (join (String.◌∷◌ c s) rest) ≡ acc ∷ read_numbers 0 (join s rest)
unfolding read_numbers
read_numbers-other acc c s rest h = rw (cons-append c s rest, h)

pub read_numbers-decimal_end : (n : ℕ) → read_numbers 0 (decimal n) ≡ n ∷ []
unfolding read_numbers
read_numbers-decimal_end n =
    ap (read_numbers 0) (sym (append-nil (decimal n))) ∙ read_numbers-decimal n ""

pub read_numbers-padded_end : (w n : ℕ) → read_numbers 0 (padded w n) ≡ n ∷ []
unfolding read_numbers
read_numbers-padded_end w n =
    ap (read_numbers 0) (sym (append-nil (padded w n))) ∙ read_numbers-padded w n ""

-- The texts `<m>-<k>`, after other characters.
pub read_numbers_dash :
    (w m : ℕ) (last : String) {k : ℕ}
    → read_numbers 0 last ≡ k ∷ []
    → read_numbers 0 (join (padded w m) (join "-" last)) ≡ m ∷ k ∷ []
unfolding is_digit
read_numbers_dash w m last h =
    read_numbers-padded w m (join "-" last)
    ∙ read_numbers-other m "-" "" last refl
    ∙ ap (λ t. m ∷ read_numbers 0 t) (nil-append last)
    ∙ ap (◌∷◌ m) h

-- One character before, and none.
pub read_numbers-before :
    (c : Char) (s rest : String) {ns : List ℕ}
    → is_digit (code c) ≡ false
    → read_numbers 0 (join s rest) ≡ ns
    → read_numbers 0 (join (String.◌∷◌ c s) rest) ≡ 0 ∷ ns
read_numbers-before c s rest other h = read_numbers-other 0 c s rest other ∙ ap (◌∷◌ 0) h

pub read_numbers-nil_before :
    (rest : String) {ns : List ℕ} → read_numbers 0 rest ≡ ns → read_numbers 0 (join "" rest) ≡ ns
read_numbers-nil_before rest h = ap (read_numbers 0) (nil-append rest) ∙ h
