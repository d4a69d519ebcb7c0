-- ===== src/Segment/Hashes/Step.antt =====
-- What one event does to each counter and time of its profile, and many events.
use device_telemetry_gateway.Common.{
  ℕ, ◌+◌, ◌≡◌, ◌≢◌, refl, sym, ap, ◌&&◌, if◌then◌else◌, ite, if_pos, if_neg, List, [], ◌∷◌, String,
  String_discrete, arith,
}
use device_telemetry_gateway.Common.Int.{pos_part}
use device_telemetry_gateway.Proto.{StorefrontEvent}
use device_telemetry_gateway.Segment.Evaluate.{field}
use device_telemetry_gateway.Segment.Recompute.{same}
use device_telemetry_gateway.Segment.Hashes.{Known, Below, step, at}

at_more : (m : String → ℕ) (d c : String) → at d (m d + 1) m c ≡ m c + (if same d c then 1 else 0)
at_more m d c = elim (String_discrete c d) [
  | yes e ↦ rw (if_pos _ e, if_pos _ (sym e)) (ap (λ k. m k + 1) (sym e))
  | no e ↦ rw (if_neg _ e, if_neg _ (λ f. e (sym f))) (omega arith)
]

-- What one event does to each counter and time.
pub record Stepped (ev : StorefrontEvent) (t t' : Known) : Type 0 where
  pub events : t'.stats "total_events" ≡ t.stats "total_events" + 1
  pub last : t'.stats "last_event_ts" ≡ pos_part ev.timestamp_ms
  pub purchases :
      t'.stats "purchase_count_total"
      ≡ t.stats "purchase_count_total" + (if same ev.event_type "purchase" then 1 else 0)
  pub cart : t'.stats "last_cartadd_ts" ≡ (
      if same ev.event_type "add_to_cart"
      then pos_part ev.timestamp_ms
      else t.stats "last_cartadd_ts")
  pub bought : t'.stats "last_purchase_ts" ≡ (
      if same ev.event_type "purchase"
      then pos_part ev.timestamp_ms
      else t.stats "last_purchase_ts")
  pub views :
      (c : String)
      → c ≢ ""
      → t'.views c
        ≡ t.views c
          + (if same ev.event_type "page_view" && same (field ev.attributes "category") c
              then 1
              else 0)

pub step-Stepped : (ev : StorefrontEvent) (t : Known) → Stepped ev t (step ev t)
unfolding String_discrete
step-Stepped ev t = elim (String_discrete ev.event_type "purchase") [
  | yes e ↦ rw (if_pos _ e) (record {
    events = refl;
    last = refl;
    purchases = rw e refl;
    cart = rw e refl;
    bought = rw e refl;
    views = λ c h. rw e (omega arith);
  })
  | no e ↦ rw (if_neg _ e) (elim (String_discrete ev.event_type "add_to_cart") [
    | yes f ↦ rw (if_pos _ f) (record {
      events = refl;
      last = refl;
      purchases = rw f (omega arith);
      cart = rw f refl;
      bought = rw f refl;
      views = λ c h. rw f (omega arith);
    })
    | no f ↦ rw (if_neg _ f) (elim (String_discrete ev.event_type "page_view") [
      | yes g ↦ rw (if_pos _ g) (elim (String_discrete (field ev.attributes "category") "") [
        | yes h ↦ rw (if_pos _ h) (record {
          events = refl;
          last = refl;
          purchases = rw g (omega arith);
          cart = rw g refl;
          bought = rw g refl;
          views = λ c n. ground arith;
        })
        | no h ↦ rw (if_neg _ h) (record {
          events = refl;
          last = refl;
          purchases = rw g (omega arith);
          cart = rw g refl;
          bought = rw g refl;
          views = λ c n. rw g (at_more t.views (field ev.attributes "category") c);
        })
      ])
      | no g ↦ rw (if_neg _ g) (record {
        events = refl;
        last = refl;
        purchases = ground arith;
        cart = ground arith;
        bought = ground arith;
        views = λ c n. ground arith;
      })
    ])
  ])
]

-- One event adds at most one to each counter.
pub step-Below : (ev : StorefrontEvent) (n : ℕ) (t : Known) → Below n t → Below (n + 1) (step ev t)
step-Below ev n t below =
    let stepped = step-Stepped ev t in
    record {
      events = omega (arith, below.events, stepped.events);
      purchases = ground (arith, below.purchases, stepped.purchases);
      views = λ c h. ground (arith, below.views c h, stepped.views c h);
    }

pub suc-Below : (n : ℕ) (t : Known) → Below n t → Below (n + 1) t
suc-Below n t below = record {
  events = omega (arith, below.events);
  purchases = omega (arith, below.purchases);
  views = λ c h. omega (arith, below.views c h);
}

-- What is known of a profile after some events, of which those of other profiles do not count.
unfoldable pub known_after : String → List StorefrontEvent → Known → Known
known_after p [] t = t
known_after p (ev ∷ evs) t = known_after p evs (ite (String_discrete ev.profile_id p) (step ev t) t)
