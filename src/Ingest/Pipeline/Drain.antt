-- ===== src/Ingest/Pipeline/Drain.antt =====
-- One call of `drainOnce`, in every order of its goroutines.
use device_telemetry_gateway.Common.{
  ℕ, ◌+◌, ◌≡◌, refl, sym, ap, ◌∙◌, Bool, not, if◌then◌else◌, List, [], ◌∷◌, ◌++◌, none, some,
  select, All, tally, tally-append, SameItems, append-nil, append_assoc, arith, Option,
}
use device_telemetry_gateway.Proto.{Reading, Codec}
use device_telemetry_gateway.Kafka.{Outcome, acked, refused, unacked, is_acked, lands}
use device_telemetry_gateway.Ingest.Spool.{no_fault}
use device_telemetry_gateway.Ingest.Spool.Laws.{Holds, write-Holds, drain-Holds}
use device_telemetry_gateway.Ingest.Pipeline.{
  Pipeline, Retries, start_retries, produce_again, write_back, RetryStep, produces, writes,
  DrainOnce, drained, and_then,
}

tally-remove :
    (q : Reading → Bool) (before after : List Reading) (r : Reading)
    → tally q (before ++ (r ∷ after)) ≡ tally q (r ∷ []) + tally q (before ++ after)
tally-remove q before after r =
    omega (arith, tally-append q before (r ∷ after), tally-append q before after)

tally-select :
    (q test : Reading → Bool) (before after : List Reading) (r : Reading)
    → tally q (select test (before ++ (r ∷ after)))
      ≡ tally q (select test (r ∷ [])) + tally q (select test (before ++ after))
tally-select q test [] after r = ground arith
tally-select q test (x ∷ before) after r = ground (arith, tally-select q test before after r)

All-remove :
    (P : Reading → Type 0) (before after : List Reading) (r : Reading)
    → All P (before ++ (r ∷ after))
    → P r × All P (before ++ after)
All-remove P [] after r h = (h.0, h.1)
All-remove P (x ∷ before) after r h =
    let (here, rest) = All-remove P before after r h.1 in (here, (h.0, rest))

module _ (codec : Codec Reading) where
  abbrev pub Marshals : Reading → Type 0
  Marshals r = (b : List ℕ) × (codec.marshal r ≡ some b)

  module _ (p : Pipeline) (rs : List Reading) (env : Reading → Outcome) where
    -- What has landed and what is back in the spool, with what still waits, make up the records drained.
    record Retried (s : Retries) : Type 0 where
      landed : List Reading
      respooled : List Reading
      topic : s.pipeline.topic ≡ p.topic ++ landed
      holds : Holds codec s.pipeline.spool respooled
      landing :
          (q : Reading → Bool)
          → tally q landed + tally q (select (λ r. lands (env r)) s.waiting)
            ≡ tally q (select (λ r. lands (env r)) rs)
      keeping :
          (q : Reading → Bool)
          → tally q respooled
              + tally q s.failed
              + tally q (select (λ r. not (is_acked (env r))) s.waiting)
            ≡ tally q (select (λ r. not (is_acked (env r))) rs)
      good_waiting : All Marshals s.waiting
      good_failed : All Marshals s.failed

    write_back-Retried :
        (s : Retries) (before after : List Reading) (r : Reading)
        → s.failed ≡ before ++ (r ∷ after)
        → Retried s
        → Retried (write_back codec (record s { failed = before ++ after }) r none)
    unfolding write_back
    write_back-Retried s before after r e i =
        let ((b, m), rest) = All-remove Marshals before after r (rw e at i.good_failed) in
        let (fine, holds) = write-Holds codec s.pipeline.spool i.respooled r b m i.holds in
        record {
          landed = i.landed;
          respooled = i.respooled ++ (r ∷ []);
          topic = i.topic;
          holds = holds;
          landing = i.landing;
          keeping = λ q. omega (
            arith,
            i.keeping q,
            tally-append q i.respooled (r ∷ []),
            tally-remove q before after r,
            ap (tally q) e,
          );
          good_waiting = i.good_waiting;
          good_failed = rest;
        }

    -- What one reading that waits adds to a count.
    waiting_lem :
        (s : Retries) (before after : List Reading) (r : Reading) (test : Reading → Bool)
        → s.waiting ≡ before ++ (r ∷ after)
        → (q : Reading → Bool)
        → tally q (select test s.waiting)
          ≡ (if test r then tally q (r ∷ []) else 0) + tally q (select test (before ++ after))
    waiting_lem s before after r test e q =
        ap (λ t. tally q (select test t)) e ∙ tally-select q test before after r ∙ ground arith

    produce_again-Retried :
        (s : Retries) (before after : List Reading) (r : Reading) (outcome : Outcome)
        → env r ≡ outcome
        → s.waiting ≡ before ++ (r ∷ after)
        → Retried s
        → Retried (produce_again codec (record s { waiting = before ++ after }) r outcome)
    unfolding produce_again
    produce_again-Retried s before after r acked o e i =
        let (good, rest) = All-remove Marshals before after r (rw e at i.good_waiting) in
        let lost = waiting_lem s before after r (λ r. lands (env r)) e in
        let kept = waiting_lem s before after r (λ r. not (is_acked (env r))) e in
        record {
          landed = i.landed ++ (r ∷ []);
          respooled = i.respooled;
          topic = ap (λ t. t ++ (r ∷ [])) i.topic ∙ append_assoc p.topic i.landed (r ∷ []);
          holds = i.holds;
          landing =
              λ q. omega (arith, i.landing q, rw o at (lost q), tally-append q i.landed (r ∷ []));
          keeping = λ q. omega (arith, i.keeping q, rw o at (kept q));
          good_waiting = rest;
          good_failed = i.good_failed;
        }
    produce_again-Retried s before after r refused o e i =
        let (good, rest) = All-remove Marshals before after r (rw e at i.good_waiting) in
        let lost = waiting_lem s before after r (λ r. lands (env r)) e in
        let kept = waiting_lem s before after r (λ r. not (is_acked (env r))) e in
        record {
          landed = i.landed;
          respooled = i.respooled;
          topic = i.topic;
          holds = i.holds;
          landing = λ q. omega (arith, i.landing q, rw o at (lost q));
          keeping = λ q. omega (arith, i.keeping q, rw o at (kept q));
          good_waiting = rest;
          good_failed = (good, i.good_failed);
        }
    produce_again-Retried s before after r unacked o e i =
        let (good, rest) = All-remove Marshals before after r (rw e at i.good_waiting) in
        let lost = waiting_lem s before after r (λ r. lands (env r)) e in
        let kept = waiting_lem s before after r (λ r. not (is_acked (env r))) e in
        record {
          landed = i.landed ++ (r ∷ []);
          respooled = i.respooled;
          topic = ap (λ t. t ++ (r ∷ [])) i.topic ∙ append_assoc p.topic i.landed (r ∷ []);
          holds = i.holds;
          landing =
              λ q. omega (arith, i.landing q, rw o at (lost q), tally-append q i.landed (r ∷ []));
          keeping = λ q. omega (arith, i.keeping q, rw o at (kept q));
          good_waiting = rest;
          good_failed = (good, i.good_failed);
        }

    abbrev working : Reading → Outcome × Option ℕ
    working r = (env r, none)

    RetryStep-Retried : (s t : Retries) → RetryStep codec working s t → Retried s → Retried t
    RetryStep-Retried s t (produces before after r e o) i =
        rw o (produce_again-Retried s before after r (env r) refl e i)
    RetryStep-Retried s t (writes before after r e o) i =
        rw o (write_back-Retried s before after r e i)

    start_retries-Retried :
        All Marshals rs → Holds codec p.spool rs → Retried (start_retries codec p no_fault)
    unfolding start_retries
    start_retries-Retried good h =
        let (done, empty) = drain-Holds codec p.spool rs h in
        rw done (record {
          landed = [];
          respooled = [];
          topic = sym (append-nil p.topic);
          holds = empty;
          landing = λ q. omega arith;
          keeping = λ q. omega arith;
          good_waiting = good;
          good_failed = tt;
        })

    DrainOnce-Retried :
        All Marshals rs
        → Holds codec p.spool rs
        → (s : Retries) → DrainOnce codec working (start_retries codec p no_fault) s
        → Retried s
    DrainOnce-Retried good h s drained = start_retries-Retried good h
    DrainOnce-Retried good h t (and_then {s} run step) =
        RetryStep-Retried s t step (DrainOnce-Retried good h s run)

  module _ (env : Reading → Outcome × Option ℕ) (begun : Retries) where
    -- A later state that has nothing left to do.
    abbrev pub Returns : Type 0
    Returns = (t : Retries) × DrainOnce codec env begun t × (t.waiting ≡ []) × (t.failed ≡ [])

    write_all :
        (s : Retries) (failed : List Reading)
        → s.failed ≡ failed
        → s.waiting ≡ []
        → DrainOnce codec env begun s
        → Returns
    unfolding write_back
    write_all s [] e idle run = (s, run, idle, e)
    write_all s (r ∷ rs) e idle run =
        write_all (write_back codec (record s { failed = rs }) r (env r).1) rs refl idle
          (and_then run (writes [] rs r e refl))

    produce_again-waiting :
        (s : Retries) (r : Reading) (outcome : Outcome)
        → (produce_again codec s r outcome).waiting ≡ s.waiting
    unfolding produce_again
    produce_again-waiting s r acked = refl
    produce_again-waiting s r refused = refl
    produce_again-waiting s r unacked = refl

    produce_all :
        (s : Retries) (waiting : List Reading)
        → s.waiting ≡ waiting
        → DrainOnce codec env begun s
        → Returns
    produce_all s [] e run = write_all s s.failed refl e run
    produce_all s (r ∷ rs) e run =
        produce_all (produce_again codec (record s { waiting = rs }) r (env r).0) rs
          (produce_again-waiting (record s { waiting = rs }) r (env r).0)
          (and_then run (produces [] rs r e refl))

    -- From every state, whatever Kafka and the disk answer, the goroutines can run to the end.
    pub drain_once_can_return : Returns
    drain_once_can_return = produce_all begun begun.waiting refl drained

  -- One call of `drainOnce` on a working disk, of readings that marshal, whatever Kafka answers for each: in
  -- every state that its goroutines reach, in every order, what the topic has got and the spool holds, with
  -- what the goroutines still have to do, are exactly the spooled readings that land and those that are not
  -- acknowledged, each as often as it was spooled; and from there the call can return, with nothing left
  -- to do.
  pub drain_once-Holds :
      (p : Pipeline) (rs : List Reading) (env : Reading → Outcome)
      → All Marshals rs
      → Holds codec p.spool rs
      → (s : Retries) → DrainOnce codec (λ r. (env r, none)) (start_retries codec p no_fault) s
      → ((landed : List Reading) × (s.pipeline.topic ≡ p.topic ++ landed)
          × SameItems
              (landed ++ select (λ r. lands (env r)) s.waiting)
              (select (λ r. lands (env r)) rs))
        × ((respooled : List Reading) × Holds codec s.pipeline.spool respooled
            × SameItems
                (respooled ++ (s.failed ++ select (λ r. not (is_acked (env r))) s.waiting))
                (select (λ r. not (is_acked (env r))) rs))
        × Returns (λ r. (env r, none)) s
  drain_once-Holds p rs env good h s run =
      let i = DrainOnce-Retried p rs env good h s run in
      let kept = select (λ r. not (is_acked (env r))) s.waiting in
      (
        (
          i.landed,
          i.topic,
          λ q.
              omega (
                arith,
                i.landing q,
                tally-append q i.landed (select (λ r. lands (env r)) s.waiting),
              ),
        ),
        (
          i.respooled,
          i.holds,
          λ q. omega (
            arith,
            i.keeping q,
            tally-append q i.respooled (s.failed ++ kept),
            tally-append q s.failed kept,
          ),
        ),
        drain_once_can_return (λ r. (env r, none)) s,
      )
