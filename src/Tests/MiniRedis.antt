-- ===== src/Tests/MiniRedis.antt =====
-- A small Redis in memory, and prices as whole numbers: instances of the two interfaces of module Segment.
use Prim.Native.String.{◌++◌ as join}
use device_telemetry_gateway.Common.{
  ℕ, suc, ◌+◌, leb, ◌≡◌, ◌≢◌, refl, ap, ◌∙◌, not, Bool, true, false, ◌&&◌, ite, if_pos, if_neg,
  List, [], ◌∷◌, String, String_discrete, contains, remove, contains-remove, insert, map, select,
  length, arith,
}
use device_telemetry_gateway.Common.Int.{ℤ, pos, negsuc, pos_part, leb_ℤ, ◌+ℤ◌}
use device_telemetry_gateway.Segment.Floats.{Floats}
use device_telemetry_gateway.Common.Decimal.{decimal}
use device_telemetry_gateway.Segment.ParseInt.{parse_int}
use device_telemetry_gateway.Segment.Evaluate.{field}
use device_telemetry_gateway.Segment.Redis.{
  Redis, Key, Command, key_of, s_add, s_rem, h_incr_by, h_set, z_add, z_rem_range_by_score,
}

unfoldable pub Key_discrete : Discrete Key
unfolding String_discrete
Key_discrete = hlevel String_discrete

-- What a key holds.
pub record Value : Type 0 where
  pub set : List String
  pub hash : List (String × String)
  pub sorted : List (String × ℤ)

abbrev pub Database : Type 0
Database = Key → Value

abbrev pub empty_database : Database
empty_database k = record { set = []; hash = []; sorted = [] }

abbrev pub print : ℤ → String
print (pos n) = decimal n
print (negsuc n) = join "-" (decimal (suc n))

abbrev change : Command → Value → Value
change (s_add k x) v = record v { set = x ∷ remove String_discrete v.set x }
change (s_rem k x) v = record v { set = remove String_discrete v.set x }
change (h_incr_by k f n) v = record v {
  hash = insert String_discrete f (print (parse_int (field v.hash f) +ℤ pos n)) v.hash;
}
change (h_set k f n) v = record v { hash = insert String_discrete f (print n) v.hash }
change (z_add k score x) v = record v { sorted = insert String_discrete x score v.sorted }
change (z_rem_range_by_score k high) v = record v {
  sorted = select (λ e. not (leb_ℤ e.1 high)) v.sorted;
}

abbrev pub run : Command → Database → Database
run c s k = ite (Key_discrete (key_of c) k) (change c (s k)) (s k)

pub run_self : (c : Command) (s : Database) → run c s (key_of c) ≡ change c (s (key_of c))
run_self c s = if_pos (Key_discrete (key_of c) (key_of c)) refl _ _

pub run_elsewhere : (c : Command) (s : Database) (k : Key) → key_of c ≢ k → run c s k ≡ s k
run_elsewhere c s k h = if_neg (Key_discrete (key_of c) k) h _ _

abbrev in_range : ℤ → ℤ → String × ℤ → Bool
in_range low high e = leb_ℤ low e.1 && leb_ℤ e.1 high

pub s_add_law :
    (s : Database) (k : Key) (x y : String)
    → contains String_discrete (run (s_add k x) s k).set y
      ≡ ite (String_discrete y x) true (contains String_discrete (s k).set y)
unfolding contains
s_add_law s k x y =
    ap (λ (v : Value). contains String_discrete v.set y) (run_self (s_add k x) s)
    ∙ ground (arith, contains-remove String_discrete (s k).set x y)

pub s_rem_law :
    (s : Database) (k : Key) (x y : String)
    → contains String_discrete (run (s_rem k x) s k).set y
      ≡ ite (String_discrete y x) false (contains String_discrete (s k).set y)
s_rem_law s k x y =
    ap (λ (v : Value). contains String_discrete v.set y) (run_self (s_rem k x) s)
    ∙ contains-remove String_discrete (s k).set x y

abbrev pub mini_redis : Redis
mini_redis = record {
  Store = Database;
  run = run;
  s_members = λ s k. (s k).set;
  h_get_all = λ s k. (s k).hash;
  z_count = λ s k low high. length (select (in_range low high) (s k).sorted);
  z_range_by_score = λ s k low high. map (λ e. e.0) (select (in_range low high) (s k).sorted);
  s_members-s_add = s_add_law;
  s_members-s_rem = s_rem_law;
  s_members_elsewhere = λ c s k h. ap (λ (v : Value). v.set) (run_elsewhere c s k h);
  h_get_all_elsewhere = λ c s k h. ap (λ (v : Value). v.hash) (run_elsewhere c s k h);
  z_count_elsewhere = λ c s k low high h.
      ap (λ (v : Value). length (select (in_range low high) v.sorted)) (run_elsewhere c s k h);
  z_range_elsewhere = λ c s k low high h.
      ap (λ (v : Value). map (λ e. e.0) (select (in_range low high) v.sorted))
        (run_elsewhere c s k h);
}

-- Prices in whole units.
abbrev pub whole_prices : Floats
whole_prices = record {
  Float = ℕ;
  of_ℕ = λ n. n;
  plus = λ a b. a + b;
  at_least = λ a b. leb b a;
  parse = λ s. pos_part (parse_int s);
  format = decimal;
}
