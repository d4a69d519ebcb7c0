-- ===== src/Commands/Scale/Compare.antt =====
-- What the comparison of the rollup with the recomputation sees.
use device_telemetry_gateway.Common.{
  ℕ, ◌≤◌, ◌≡◌, ◌≢◌, ◌↔◌, refl, ap, ◌∙◌, ◌==◌, if_pos, if_neg, List, [], ◌∷◌, ◌++◌, map, Option,
  none, some, String, String_discrete, insert, lookup-insert_ne, lookup-insert_self, sym, All,
  Bool-cases, inl, inr, arith,
}
use device_telemetry_gateway.Common.Sort.{sort, sort-All, text_order}
use device_telemetry_gateway.DeliveryStats.Store.{Pair}
use device_telemetry_gateway.Commands.Scale.{
  pair_key, map_of, fill_map, read_count, compare_keys, compare,
}

-- The comparison reads the rollup's map at the keys of the recomputation only.
compare_keys-congr :
    (m r s : List (String × ℕ)) (ks : List String)
    → All (λ k. read_count r k ≡ read_count s k) ks
    → compare_keys m r ks ≡ compare_keys m s ks
unfolding compare_keys
compare_keys-congr m r s [] h = refl
compare_keys-congr m r s (k ∷ ks) h = rw (h.0, compare_keys-congr m r s ks h.1)

read_count-insert :
    (k j : String) (n : ℕ) (m : List (String × ℕ))
    → j ≢ k
    → read_count (insert String_discrete k n m) j ≡ read_count m j
unfolding read_count
read_count-insert k j n m h =
    ap (λ (found : Option ℕ). elim found as (λ x. ℕ) [ some c ↦ c | none ↦ 0 ])
      (lookup-insert_ne String_discrete k j n m h)

read_count-insert_self :
    (k : String) (n : ℕ) (m : List (String × ℕ)) → read_count (insert String_discrete k n m) k ≡ n
unfolding read_count
read_count-insert_self k n m =
    ap (λ (found : Option ℕ). elim found as (λ x. ℕ) [ some c ↦ c | none ↦ 0 ])
      (lookup-insert_self String_discrete k n m)

-- More rows keep two maps alike at a key.
fill_map-congr :
    (rows : List (Pair × ℕ)) (l m : List (String × ℕ)) (k : String)
    → read_count l k ≡ read_count m k
    → read_count (fill_map rows l) k ≡ read_count (fill_map rows m) k
unfolding fill_map
fill_map-congr [] l m k h = h
fill_map-congr ((p, n) ∷ rows) l m k h =
    fill_map-congr rows (insert String_discrete (pair_key p) n l)
      (insert String_discrete (pair_key p) n m) k
      (elim (String_discrete k (pair_key p)) [
        | yes e ↦ rw e (
            read_count-insert_self (pair_key p) n l ∙ sym (read_count-insert_self (pair_key p) n m))
        | no e ↦
            read_count-insert (pair_key p) k n l e
            ∙ h
            ∙ sym (read_count-insert (pair_key p) k n m e)
      ])

-- A row with another key, wherever it stands.
fill_map-other :
    (before after : List (Pair × ℕ)) (q : Pair) (n : ℕ) (m : List (String × ℕ)) (k : String)
    → k ≢ pair_key q
    → read_count (fill_map (before ++ ((q, n) ∷ after)) m) k
      ≡ read_count (fill_map (before ++ after) m) k
unfolding fill_map
fill_map-other [] after q n m k h =
    fill_map-congr after (insert String_discrete (pair_key q) n m) m k
      (read_count-insert (pair_key q) k n m h)
fill_map-other ((p, c) ∷ before) after q n m k h =
    fill_map-other before after q n (insert String_discrete (pair_key p) c m) k h

-- The keys of a map.
insert-keys :
    (P : String → Type 0) (k : String) (n : ℕ) (m : List (String × ℕ))
    → P k
    → All (λ e. P e.0) m
    → All (λ e. P e.0) (insert String_discrete k n m)
unfolding insert
insert-keys P k n [] h a = (h, tt)
insert-keys P k n ((j, v) ∷ m) h a = elim (String_discrete k j) [
  | yes e ↦ rw (if_pos _ e) (h, a.1)
  | no e ↦ rw (if_neg _ e) (a.0, insert-keys P k n m h a.1)
]

fill_map-keys :
    (P : String → Type 0) (rows : List (Pair × ℕ)) (m : List (String × ℕ))
    → All (λ e. P (pair_key e.0)) rows
    → All (λ e. P e.0) m
    → All (λ e. P e.0) (fill_map rows m)
unfolding fill_map
fill_map-keys P [] m h a = a
fill_map-keys P ((q, n) ∷ rows) m h a =
    fill_map-keys P rows (insert String_discrete (pair_key q) n m) h.1
      (insert-keys P (pair_key q) n m h.0 a)

All-firsts :
    (P : String → Type 0) (m : List (String × ℕ)) → All (λ e. P e.0) m → All P (map (λ e. e.0) m)
All-firsts P [] h = tt
All-firsts P (e ∷ m) h = (h.0, All-firsts P m h.1)

All-weaken :
    (P Q : String → Type 0) (ks : List String) → ((k : String) → P k → Q k) → All P ks → All Q ks
All-weaken P Q [] f h = tt
All-weaken P Q (k ∷ ks) f h = (f k h.0, All-weaken P Q ks f h.1)

-- A row of the rollup whose joined text of channel and status no row of the recomputation has is not seen by
-- the comparison, wherever the row stands and however large its count: the report is the same as without it.
pub extra_pair_unseen :
    (recompute before after : List (Pair × ℕ)) (q : Pair) (n : ℕ)
    → All (λ e. pair_key e.0 ≢ pair_key q) recompute
    → compare recompute (before ++ ((q, n) ∷ after)) ≡ compare recompute (before ++ after)
unfolding compare map_of
extra_pair_unseen recompute before after q n apart =
    let keys = map (λ e. e.0) (map_of recompute) in
    let others =
      sort-All text_order (λ k. k ≢ pair_key q) keys
        (All-firsts (λ k. k ≢ pair_key q) (map_of recompute)
          (fill_map-keys (λ k. k ≢ pair_key q) recompute [] apart tt)) in
    compare_keys-congr (map_of recompute) (map_of (before ++ ((q, n) ∷ after)))
      (map_of (before ++ after)) (sort text_order keys)
      (All-weaken (λ k. k ≢ pair_key q)
        (λ k.
          read_count (map_of (before ++ ((q, n) ∷ after))) k
          ≡ read_count (map_of (before ++ after)) k)
        (sort text_order keys) (λ k h. fill_map-other before after q n [] k h) others)

-- The keys of the report, and what they are compared by.
abbrev pub keys_of : List (Pair × ℕ) → List String
keys_of recompute = sort text_order (map (λ e. e.0) (map_of recompute))

abbrev pub Agree : List (Pair × ℕ) → List (Pair × ℕ) → List String → Type 0
Agree recompute rollup = All (λ k. read_count (map_of recompute) k ≡ read_count (map_of rollup) k)

exact-le-total :
    (m r : List (String × ℕ)) (ks : List String)
    → (compare_keys m r ks).exact_pairs ≤ (compare_keys m r ks).total_pairs
unfolding compare_keys
exact-le-total m r [] = omega arith
exact-le-total m r (k ∷ ks) = ground (arith, exact-le-total m r ks)

compare_keys_exact :
    (m r : List (String × ℕ)) (ks : List String)
    → ((compare_keys m r ks).exact_pairs ≡ (compare_keys m r ks).total_pairs)
      ↔ All (λ k. read_count m k ≡ read_count r k) ks
unfolding compare_keys
compare_keys_exact m r [] = (λ e. tt, λ h. refl)
compare_keys_exact m r (k ∷ ks) = elim (Bool-cases (read_count m k == read_count r k)) [
  | inl same ↦
      let equal : read_count m k ≡ read_count r k = ground arith in
      let rest = compare_keys_exact m r ks in
      rw same (λ e. (equal, rest.0 (omega arith)), λ h. omega (arith, rest.1 h.1))
  | inr differ ↦
      let unequal : read_count m k ≢ read_count r k = λ e. ground arith in
      rw differ (λ e. absurd (omega (arith, exact-le-total m r ks)), λ h. absurd (unequal h.0))
]

compare_keys_totals :
    (m r : List (String × ℕ)) (ks : List String)
    → All (λ k. read_count m k ≡ read_count r k) ks
    → (compare_keys m r ks).recompute_total ≡ (compare_keys m r ks).rollup_total
unfolding compare_keys
compare_keys_totals m r [] h = refl
compare_keys_totals m r (k ∷ ks) h = omega (arith, h.0, compare_keys_totals m r ks h.1)

-- The report says that all its pairs match exactly if the two maps agree on every key of the recomputation, and
-- then its two totals are equal.
pub compare_all_exact :
    (recompute rollup : List (Pair × ℕ))
    → let report = compare recompute rollup in
      ((report.exact_pairs ≡ report.total_pairs) ↔ Agree recompute rollup (keys_of recompute))
      × (report.exact_pairs ≡ report.total_pairs → report.recompute_total ≡ report.rollup_total)
unfolding compare
compare_all_exact recompute rollup =
    let m = map_of recompute in
    let r = map_of rollup in
    let iff = compare_keys_exact m r (keys_of recompute) in
    (iff, λ e. compare_keys_totals m r (keys_of recompute) (iff.0 e))
