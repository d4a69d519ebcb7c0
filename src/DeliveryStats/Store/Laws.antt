-- ===== src/DeliveryStats/Store/Laws.antt =====
-- The rollup against the independent recomputation.
use device_telemetry_gateway.Common.{
  ℕ, suc, Bool, if◌then◌else◌, ◌≤◌, ◌+◌, ◌≡◌, refl, sym, ap, ◌∙◌, ite, if_pos, if_neg, true, List,
  [], ◌∷◌, Option, none, some, lookup, arith,
}
use device_telemetry_gateway.Proto.{DeliveryWebhook}
use device_telemetry_gateway.DeliveryStats.Store.{
  Pair, Pair_discrete, RollupKey_discrete, add_to_group, group_by, pair_of, rollup_key, Tables,
  Sent, runs, fails, is_ok, marked, RollupKey, refresh_rollup, recompute_channel_status_counts,
  rollup_channel_status_counts,
}

abbrev pub or_zero : Option ℕ → ℕ
or_zero none = 0
or_zero (some n) = n

module _ {K : Type 0} (dec : Discrete K) where
  lookup-add_to_group :
      (k q : K) (n : ℕ) (m : List (K × ℕ))
      → lookup dec q (add_to_group dec k n m)
        ≡ ite (dec q k) (some (n + or_zero (lookup dec q m))) (lookup dec q m)
  unfolding lookup add_to_group
  lookup-add_to_group k q n [] = ground arith
  lookup-add_to_group k q n ((j, v) ∷ m) = ground (arith, lookup-add_to_group k q n m)

  -- The sum over the rows of one group; none without a row.
  abbrev pub group_total : {R : Type 0} → (R → K) → (R → ℕ) → K → List R → Option ℕ
  group_total key weight q [] = none
  group_total key weight q (r ∷ rs) =
      ite (dec q (key r)) (some (weight r + or_zero (group_total key weight q rs)))
        (group_total key weight q rs)

  pub lookup-group_by :
      {R : Type 0} (key : R → K) (weight : R → ℕ) (q : K) (rs : List R)
      → lookup dec q (group_by dec key weight rs) ≡ group_total key weight q rs
  unfolding group_by lookup
  lookup-group_by key weight q [] = refl
  lookup-group_by key weight q (r ∷ rs) =
      lookup-add_to_group (key r) q (weight r) (group_by dec key weight rs)
      ∙ ap (λ o. ite (dec q (key r)) (some (weight r + or_zero o)) o)
          (lookup-group_by key weight q rs)

  -- A coarser sum over a finer grouping.
  group_total-add_to_group :
      {J : Type 0} (fine : Discrete J) (part : J → K) (k : J) (n : ℕ) (q : K) (m : List (J × ℕ))
      → group_total (λ e. part e.0) (λ e. e.1) q (add_to_group fine k n m)
        ≡ ite
            (dec q (part k))
            (some (n + or_zero (group_total (λ e. part e.0) (λ e. e.1) q m)))
            (group_total (λ e. part e.0) (λ e. e.1) q m)
  unfolding add_to_group
  group_total-add_to_group fine part k n q [] = ground arith
  group_total-add_to_group fine part k n q ((j, v) ∷ m) = elim (fine k j) [
    | yes e ↦
        rw (if_pos _ e, e) (elim (dec q (part j)) [ yes f ↦ ground arith | no f ↦ ground arith ])
    | no e ↦ rw (if_neg _ e) (ground (arith, group_total-add_to_group fine part k n q m))
  ]

  pub group_total-group_by :
      {J R : Type 0} (fine : Discrete J) (part : J → K) (key : R → J) (weight : R → ℕ) (q : K)
      (rs : List R)
      → group_total (λ e. part e.0) (λ e. e.1) q (group_by fine key weight rs)
        ≡ group_total (λ r. part (key r)) weight q rs
  unfolding group_by
  group_total-group_by fine part key weight q [] = refl
  group_total-group_by fine part key weight q (r ∷ rs) =
      group_total-add_to_group fine part (key r) (weight r) q (group_by fine key weight rs)
      ∙ ap (λ o. ite (dec q (part (key r))) (some (weight r + or_zero o)) o)
          (group_total-group_by fine part key weight q rs)

-- The rollup answers for every pair of a channel and a status what a recomputation from the log answers, a
-- missing pair included.
abbrev pub Exact : Tables → Type 0
Exact t =
    (q : Pair)
    → lookup Pair_discrete q (rollup_channel_status_counts t)
      ≡ lookup Pair_discrete q (recompute_channel_status_counts t)

rebuilt-Exact :
    (events : List DeliveryWebhook)
    → Exact (record {
      events = events;
      rollup = group_by RollupKey_discrete rollup_key (λ w. 1) events;
    })
unfolding rollup_channel_status_counts recompute_channel_status_counts rollup_key
rebuilt-Exact events q =
    lookup-group_by Pair_discrete (λ e. e.0.pair) (λ e. e.1) q
      (group_by RollupKey_discrete rollup_key (λ w. 1) events)
    ∙ group_total-group_by Pair_discrete RollupKey_discrete (λ k. k.pair) rollup_key (λ w. 1) q
        events
    ∙ sym (lookup-group_by Pair_discrete pair_of (λ w. 1) q events)

-- Whatever the log and the rollup hold: after a refresh that reports no error, the log is as before and the
-- rollup answers for every pair what a recomputation from the whole log answers.
pub refresh_rollup-Exact :
    (t : Tables) (first second : Sent)
    → (refresh_rollup t first second).1 ≡ true
    → ((refresh_rollup t first second).0.events ≡ t.events)
      × Exact (refresh_rollup t first second).0
unfolding refresh_rollup
refresh_rollup-Exact t runs runs h = (refl, rebuilt-Exact t.events)
refresh_rollup-Exact t runs (fails which) h = ground arith
refresh_rollup-Exact t (fails which) second h = ground arith

-- What an answer says of a pair; no row counts as 0.
abbrev pub count_of : Pair → List (Pair × ℕ) → ℕ
count_of q rows = or_zero (lookup Pair_discrete q rows)

group_total-marked :
    {R : Type 0} (key : R → Pair) (weight : R → ℕ) (q : Pair) (which : ℕ → Bool) (rs : List R)
    → or_zero (group_total Pair_discrete key weight q (marked which rs))
      ≤ or_zero (group_total Pair_discrete key weight q rs)
group_total-marked key weight q which [] = omega arith
group_total-marked key weight q which (r ∷ rs) =
    ground (arith, group_total-marked key weight q (λ n. which (suc n)) rs)

rollup_part :
    (events : List DeliveryWebhook) (rows : List (RollupKey × ℕ)) (which : ℕ → Bool) (q : Pair)
    → count_of q
        (rollup_channel_status_counts (record { events = events; rollup = marked which rows }))
      ≤ count_of q (rollup_channel_status_counts (record { events = events; rollup = rows }))
unfolding rollup_channel_status_counts
rollup_part events rows which q =
    rw
      (
        lookup-group_by Pair_discrete (λ (e : RollupKey × ℕ). e.0.pair) (λ e. e.1) q
            (marked which rows),
        lookup-group_by Pair_discrete (λ (e : RollupKey × ℕ). e.0.pair) (λ e. e.1) q rows,
      )
      (group_total-marked (λ e. e.0.pair) (λ e. e.1) q which rows)

-- Wherever the two statements of a refresh fail, if they do: the log is as before, and the rollup never
-- counts a pair too often. If TRUNCATE reports no error, it answers for every pair at most what a
-- recomputation from the log answers, and otherwise at most what it answered before.
pub refresh_rollup_undercounts :
    (t : Tables) (first second : Sent) (q : Pair)
    → let t' = (refresh_rollup t first second).0 in
      (t'.events ≡ t.events)
      × (count_of q (rollup_channel_status_counts t') ≤ (
          if is_ok first
          then count_of q (recompute_channel_status_counts t)
          else count_of q (rollup_channel_status_counts t)))
unfolding refresh_rollup lookup rollup_channel_status_counts recompute_channel_status_counts
refresh_rollup_undercounts t runs runs q =
    (refl, omega (arith, ap or_zero (rebuilt-Exact t.events q)))
refresh_rollup_undercounts t runs (fails which) q = (
  refl,
  omega (
    arith,
    ap or_zero (rebuilt-Exact t.events q),
    rollup_part t.events (group_by RollupKey_discrete rollup_key (λ w. 1) t.events) which q,
  ),
)
refresh_rollup_undercounts t (fails which) second q = (refl, rollup_part t.events t.rollup which q)
