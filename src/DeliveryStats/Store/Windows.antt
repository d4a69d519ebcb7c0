-- ===== src/DeliveryStats/Store/Windows.antt =====
-- The dashboard answered from the log and from the rollup.
use device_telemetry_gateway.Common.{
  ℕ, ◌≡◌, refl, sym, ap, ◌∙◌, if_pos, if_neg, if◌then◌else◌, Bool, true, false, List, [], ◌∷◌, map,
  Option, none, String, String_discrete, lookup, contains, Distinct, length, select, All,
  Bool-cases, inl, inr, arith,
}
use device_telemetry_gateway.Common.Int.{ℤ, pos, negsuc, floor_div, leb_ℤ}
use device_telemetry_gateway.Proto.{DeliveryWebhook}
use device_telemetry_gateway.DeliveryStats.{webhook_key}
use device_telemetry_gateway.DeliveryStats.Store.{
  RollupKey, RollupKey_discrete, add_to_group, group_by, rollup_key, minute_of, Tables, Sent, runs,
  fails, refresh_rollup,
}
use device_telemetry_gateway.DeliveryStats.Store.Laws.{
  group_total, lookup-group_by, group_total-group_by,
}
use device_telemetry_gateway.DeliveryStats.Store.Dashboard.{
  times, add_id, group_ids, uniq_exact, dashboard_raw_query, dashboard_rollup_query,
}

module _ {K : Type 0} (dec : Discrete K) where
  -- No group holds the text.
  abbrev Lacks : String → List (K × List String) → Type 0
  Lacks x groups = All (λ g. contains String_discrete g.1 x ≡ false) groups

  add_id-Lacks :
      (x y : String) (k : K) (groups : List (K × List String))
      → contains String_discrete (y ∷ []) x ≡ false
      → Lacks x groups
      → Lacks x (add_id dec k y groups)
  unfolding add_id contains
  add_id-Lacks x y k [] h l = (h, tt)
  add_id-Lacks x y k ((j, ids) ∷ rest) h l = elim (dec k j) [
    | yes e ↦ rw (if_pos _ e) (ground (arith, l.0), l.1)
    | no e ↦ rw (if_neg _ e) (l.0, add_id-Lacks x y k rest h l.1)
  ]

  uniq-add_id :
      (k : K) (x : String) (groups : List (K × List String))
      → Lacks x groups
      → uniq_exact (add_id dec k x groups) ≡ add_to_group dec k 1 (uniq_exact groups)
  unfolding add_id add_to_group uniq_exact
  uniq-add_id k x [] l = refl
  uniq-add_id k x ((j, ids) ∷ rest) l = elim (dec k j) [
    | yes e ↦ rw (if_pos _ e, if_pos _ e, l.0) (ground arith)
    | no e ↦ rw (if_neg _ e, if_neg _ e) (ap (◌∷◌ (j, length ids)) (uniq-add_id k x rest l.1))
  ]

  module _ {R : Type 0} (key : R → K) (id : R → String) where
    group_ids-Lacks :
        (x : String) (rs : List R)
        → contains String_discrete (map id rs) x ≡ false
        → Lacks x (group_ids dec key id rs)
    unfolding group_ids contains
    group_ids-Lacks x [] h = tt
    group_ids-Lacks x (r ∷ rs) h =
        add_id-Lacks x (id r) (key r) (group_ids dec key id rs) (ground arith)
          (group_ids-Lacks x rs (ground arith))

    -- With distinct texts, counting the texts of a group is counting its rows.
    pub uniq-group_ids :
        (rs : List R)
        → Distinct String_discrete (map id rs)
        → uniq_exact (group_ids dec key id rs) ≡ group_by dec key (λ r. 1) rs
    unfolding group_ids group_by uniq_exact
    uniq-group_ids [] d = refl
    uniq-group_ids (r ∷ rs) d =
        uniq-add_id (key r) (id r) (group_ids dec key id rs) (group_ids-Lacks (id r) rs d.0)
        ∙ ap (add_to_group dec (key r) 1) (uniq-group_ids rs d.1)

  -- A filter that passes every row of a group keeps its sum, and one that passes none leaves no row.
  pub group_total-select :
      {R : Type 0} (key : R → K) (weight : R → ℕ) (p : R → Bool) (q : K) (b : Bool) (rs : List R)
      → ((r : R) → key r ≡ q → p r ≡ b)
      → group_total dec key weight q (select p rs)
        ≡ (if b then group_total dec key weight q rs else none)
  group_total-select key weight p q true [] h = refl
  group_total-select key weight p q false [] h = refl
  group_total-select key weight p q true (r ∷ rs) h =
      ground (arith, group_total-select key weight p q true rs h, h r)
  group_total-select key weight p q false (r ∷ rs) h =
      ground (arith, group_total-select key weight p q false rs h, h r)

-- A time of a minute that starts at or after the window lies in the window.
later_in_minute :
    (start t : ℤ) → leb_ℤ start (times 60000 (minute_of t)) ≡ true → leb_ℤ start t ≡ true
unfolding minute_of
later_in_minute (pos s) (pos t) h = ground arith
later_in_minute (pos s) (negsuc t) h = ground arith
later_in_minute (negsuc s) (pos t) h = ground arith
later_in_minute (negsuc s) (negsuc t) h = ground arith

in_window :
    (start : ℤ) (w : DeliveryWebhook) (q : RollupKey)
    → rollup_key w ≡ q
    → leb_ℤ start (times 60000 q.minute) ≡ true
    → leb_ℤ start w.timestamp_ms ≡ true
unfolding rollup_key
in_window start w q same inside =
    later_in_minute start w.timestamp_ms
      (ap (λ (k : RollupKey). leb_ℤ start (times 60000 k.minute)) same ∙ inside)

-- The start of a minute against a window that starts at a whole second.
whole_seconds :
    (s k : ℤ)
    → leb_ℤ (floor_div (times 1000 s) 1000) (times 60 k) ≡ leb_ℤ (times 1000 s) (times 60000 k)
whole_seconds (pos s) (pos k) = ground arith
whole_seconds (pos s) (negsuc k) = ground arith
whole_seconds (negsuc s) (pos k) = ground arith
whole_seconds (negsuc s) (negsuc k) = ground arith

contains-select :
    (p : DeliveryWebhook → Bool) (x : String) (ws : List DeliveryWebhook)
    → contains String_discrete (map webhook_key ws) x ≡ false
    → contains String_discrete (map webhook_key (select p ws)) x ≡ false
unfolding contains
contains-select p x [] h = refl
contains-select p x (w ∷ ws) h = ground (arith, contains-select p x ws)

Distinct-select :
    (p : DeliveryWebhook → Bool) (ws : List DeliveryWebhook)
    → Distinct String_discrete (map webhook_key ws)
    → Distinct String_discrete (map webhook_key (select p ws))
Distinct-select p [] d = tt
Distinct-select p (w ∷ ws) d = elim (Bool-cases (p w)) [
  | inl in_window ↦ rw in_window (contains-select p w.webhook_id ws d.0, Distinct-select p ws d.1)
  | inr before ↦ rw before (Distinct-select p ws d.1)
]

module _ (s : ℤ) (q : RollupKey) (events : List DeliveryWebhook) where
  -- The webhooks of the log with the key, whatever the window.
  total : Option ℕ
  total = group_total RollupKey_discrete rollup_key (λ w. 1) q events

  rollup_total :
      lookup RollupKey_discrete q (
        dashboard_rollup_query
          (record {
            events = events;
            rollup = group_by RollupKey_discrete rollup_key (λ w. 1) events;
          })
          (times 1000 s))
      ≡ (if leb_ℤ (times 1000 s) (times 60000 q.minute) then total else none)
  unfolding dashboard_rollup_query total
  rollup_total =
      let starts = λ (k : RollupKey). leb_ℤ (floor_div (times 1000 s) 1000) (times 60 k.minute) in
      let rows = group_by RollupKey_discrete rollup_key (λ w. 1) events in
      lookup-group_by RollupKey_discrete (λ e. e.0) (λ e. e.1) q (select (λ e. starts e.0) rows)
      ∙ group_total-select RollupKey_discrete (λ e. e.0) (λ e. e.1) (λ e. starts e.0) q (starts q)
          rows (λ e same. ap starts same)
      ∙ rw (whole_seconds s q.minute) (
          ap (λ n. if leb_ℤ (times 1000 s) (times 60000 q.minute) then n else none)
            (group_total-group_by RollupKey_discrete RollupKey_discrete (λ k. k) rollup_key (λ w. 1)
              q events))

  raw_total :
      (rollup : List (RollupKey × ℕ))
      → Distinct String_discrete (map webhook_key events)
      → leb_ℤ (times 1000 s) (times 60000 q.minute) ≡ true
      → lookup RollupKey_discrete q
          (dashboard_raw_query (record { events = events; rollup = rollup }) (times 1000 s))
        ≡ total
  unfolding dashboard_raw_query total
  raw_total rollup distinct inside =
      let recent = λ (w : DeliveryWebhook). leb_ℤ (times 1000 s) w.timestamp_ms in
      ap (lookup RollupKey_discrete q) (
        uniq-group_ids RollupKey_discrete rollup_key webhook_key (select recent events)
          (Distinct-select recent events distinct))
      ∙ lookup-group_by RollupKey_discrete rollup_key (λ w. 1) q (select recent events)
      ∙ group_total-select RollupKey_discrete rollup_key (λ w. 1) recent q true events
          (λ w same. in_window (times 1000 s) w q same inside)

fresh_agree :
    (t : Tables) (s : ℤ) (q : RollupKey)
    → t.rollup ≡ group_by RollupKey_discrete rollup_key (λ w. 1) t.events
    → Distinct String_discrete (map (λ w. w.webhook_id) t.events)
    → lookup RollupKey_discrete q (dashboard_rollup_query t (times 1000 s)) ≡ (
        if leb_ℤ (times 1000 s) (times 60000 q.minute)
        then lookup RollupKey_discrete q (dashboard_raw_query t (times 1000 s))
        else none)
fresh_agree t s q fresh distinct =
    ap (λ (u : Tables). lookup RollupKey_discrete q (dashboard_rollup_query u (times 1000 s)))
      (λ i. record { events = t.events; rollup = fresh i })
    ∙ rollup_total s q t.events
    ∙ elim (Bool-cases (leb_ℤ (times 1000 s) (times 60000 q.minute))) [
      | inl inside ↦ rw inside (sym (raw_total s q t.events t.rollup distinct inside))
      | inr before ↦ rw before
    ]

-- After a refresh that reports no error, with distinct webhook ids in the log and a window that starts at a
-- whole second: for every minute that starts in the window, both queries have the same row for every
-- channel and status, or both have none; for a minute that starts before the window, the query on the rollup
-- has no row.
pub dashboards_agree :
    (t : Tables) (first second : Sent) (s : ℤ) (q : RollupKey)
    → (refresh_rollup t first second).1 ≡ true
    → Distinct String_discrete (map (λ w. w.webhook_id) t.events)
    → let t' = (refresh_rollup t first second).0 in
      lookup RollupKey_discrete q (dashboard_rollup_query t' (times 1000 s)) ≡ (
        if leb_ℤ (times 1000 s) (times 60000 q.minute)
        then lookup RollupKey_discrete q (dashboard_raw_query t' (times 1000 s))
        else none)
unfolding refresh_rollup
dashboards_agree t runs runs s q h distinct =
    fresh_agree (refresh_rollup t runs runs).0 s q refl distinct
dashboards_agree t runs (fails which) s q h distinct = ground arith
dashboards_agree t (fails which) second s q h distinct = ground arith
