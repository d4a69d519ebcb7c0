-- ===== src/Segment/ParseInt.antt =====
-- `strconv.ParseInt(s, 10, 64)` with its error ignored: 0 for a text that is no number, and the nearest end
-- of the range for a number out of it.
pub mod Text
use Prim.Native.Char.{code}
use device_telemetry_gateway.Common.{
  ℕ, zero, suc, ◌+◌, ◌-◌, ◌*◌, ◌^◌, leb, if◌then◌else◌, ◌==◌, ◌&&◌, List, [], ◌∷◌, Option, none,
  some, String,
}
use device_telemetry_gateway.Common.Int.{ℤ, pos, negsuc}

codes : String → List ℕ
codes String.[] = []
codes (String.◌∷◌ c s) = code c ∷ codes s

-- It stops at the first digit that takes the number out of 64 bits.
digits : ℕ → List ℕ → Option ℕ
digits n [] = some n
digits n (c ∷ cs) =
    let n' = n * 10 + (c - b'0') in
    let rest = digits n' cs in
    if leb b'0' c && leb c b'9' then (if leb (2 ^ 64) n' then some n' else rest) else none

number : List ℕ → Option ℕ
unfolding digits
number [] = none
number (c ∷ cs) = digits 0 (c ∷ cs)

up : Option ℕ → ℤ
up none = pos 0
up (some n) = if leb (2 ^ 63) n then pos (2 ^ 63 - 1) else pos n

down : Option ℕ → ℤ
down none = pos 0
down (some zero) = pos 0
down (some (suc n)) = if leb (2 ^ 63) n then negsuc (2 ^ 63 - 1) else negsuc n

signed : List ℕ → ℤ
unfolding number up down
signed [] = pos 0
signed (c ∷ cs) =
    if c == b'-'
    then down (number cs)
    else if c == b'+'
    then up (number cs)
    else up (number (c ∷ cs))

unfoldable pub parse_int : String → ℤ
unfolding codes signed
parse_int s = signed (codes s)
