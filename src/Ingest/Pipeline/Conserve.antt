-- ===== src/Ingest/Pipeline/Conserve.antt =====
-- No reading that passed the deduplication is lost, under every interleaving of connections, drains and
-- retries and every outcome of the producer.
use device_telemetry_gateway.Common.{
  ◌+◌, ◌≡◌, refl, sym, ap, Bool, if◌then◌else◌, List, [], ◌∷◌, ◌++◌, none, tally, tally-append, All,
  arith, Bool-cases, Option-cases, inl, inr,
}
use device_telemetry_gateway.Proto.{Reading, Codec}
use device_telemetry_gateway.Kafka.{Outcome, acked, refused, unacked}
use device_telemetry_gateway.Ingest.Dedup
use device_telemetry_gateway.Ingest.Dedup.{Dedup, new_dedup, admit_all}
use device_telemetry_gateway.Ingest.Spool.{write}
use device_telemetry_gateway.Ingest.Spool.Laws.{
  Holds, new_spool-Holds, write-Holds, drain-Holds, write_unmarshallable,
}
use device_telemetry_gateway.Ingest.Pipeline.{
  Gateway, start, arrive, start_drain, settle, respool, Step, arrival, drain, settled, Reach,
  started, next,
}

admit_all-snoc :
    (d : Dedup) (rs : List Reading) (r : Reading)
    → let before = admit_all d rs in
      let (dedup', fresh) = Dedup.admit before.0 r.device_id r.sequence in
      admit_all d (rs ++ (r ∷ [])) ≡ (dedup', if fresh then before.1 ++ (r ∷ []) else before.1)
unfolding admit_all
admit_all-snoc d [] r = refl
admit_all-snoc d (q ∷ rs) r =
    rw (admit_all-snoc (Dedup.admit d q.device_id q.sequence).0 rs r) (ground arith)

-- One more call after a run, on the state and the output of that run.
arrive-history :
    (d : Dedup) (rs out : List Reading) (r : Reading)
    → d ≡ (admit_all new_dedup rs).0
    → out ≡ (admit_all new_dedup rs).1
    → let (dedup', fresh) = Dedup.admit d r.device_id r.sequence in
      (dedup' ≡ (admit_all new_dedup (rs ++ (r ∷ []))).0)
      × ((if fresh then out ++ (r ∷ []) else out) ≡ (admit_all new_dedup (rs ++ (r ∷ []))).1)
arrive-history d rs out r same_dedup same_out =
    let snoc = admit_all-snoc new_dedup rs r in
    rw (same_dedup, same_out) (sym (ap (λ p. p.0) snoc), sym (ap (λ p. p.1) snoc))

module _ (codec : Codec Reading) where
  -- Every admitted reading is, as often as it was admitted, either acknowledged by Kafka, in the spool,
  -- in the hands of a goroutine, or dropped because it could not be marshalled for the spool.
  pub record Conserved (g : Gateway) : Type 0 where
    pub spooled : List Reading
    pub holds : Holds codec g.spool spooled
    pub balance :
        (p : Reading → Bool)
        → tally p g.admitted
          ≡ tally p g.delivered + tally p spooled + tally p g.in_flight + tally p g.dropped
    pub history :
        (g.dedup ≡ (admit_all new_dedup g.arrived).0)
        × (g.admitted ≡ (admit_all new_dedup g.arrived).1)
    pub unspoolable : All (λ r. codec.marshal r ≡ none) g.dropped

  start-Conserved : Conserved start
  unfolding admit_all
  start-Conserved = record {
    spooled = [];
    holds = new_spool-Holds codec;
    balance = λ p. refl;
    history = (refl, refl);
    unspoolable = tt;
  }

  arrive-Conserved : (g : Gateway) (r : Reading) → Conserved g → Conserved (arrive codec g r)
  unfolding arrive
  arrive-Conserved g r c =
      let (dedup', fresh) = Dedup.admit g.dedup r.device_id r.sequence in
      let (same_dedup, same_out) =
        arrive-history g.dedup g.arrived g.admitted r c.history.0 c.history.1 in
      elim (Bool-cases fresh) [
        | inl new ↦ rw new (record {
          spooled = c.spooled;
          holds = c.holds;
          balance = λ p. omega (arith, c.balance p, tally-append p g.admitted (r ∷ []));
          history = (same_dedup, rw new at same_out);
          unspoolable = c.unspoolable;
        })
        | inr old ↦ rw old (record {
          spooled = c.spooled;
          holds = c.holds;
          balance = c.balance;
          history = (same_dedup, rw old at same_out);
          unspoolable = c.unspoolable;
        })
      ]

  start_drain-Conserved : (g : Gateway) → Conserved g → Conserved (start_drain codec g)
  unfolding start_drain
  start_drain-Conserved g c =
      let (done, empty) = drain-Holds codec g.spool c.spooled c.holds in
      rw done (record {
        spooled = [];
        holds = empty;
        balance = λ p. omega (arith, c.balance p, tally-append p c.spooled g.in_flight);
        history = c.history;
        unspoolable = c.unspoolable;
      })

  -- The reading that settles, out of the list of those in flight.
  taken :
      (p : Reading → Bool) (flight before after : List Reading) (r : Reading)
      → flight ≡ before ++ (r ∷ after)
      → tally p flight ≡ (if p r then 1 else 0) + tally p (before ++ after)
  taken p flight before after r e =
      rw e (omega (arith, tally-append p before (r ∷ after), tally-append p before after))

  respool-Conserved :
      (g : Gateway) (repeated before after : List Reading) (r : Reading)
      → g.in_flight ≡ before ++ (r ∷ after)
      → Conserved g
      → let (spool', result) = write codec g.spool r none in
        Conserved (
          respool codec
            (record g { in_flight = before ++ after; repeated = repeated })
            r
            spool'
            result)
  unfolding respool
  respool-Conserved g repeated before after r e c = elim (Option-cases (codec.marshal r)) [
    | inl bad ↦ rw (write_unmarshallable codec g.spool r none bad) (record {
      spooled = c.spooled;
      holds = c.holds;
      balance = λ p. omega (arith, c.balance p, taken p g.in_flight before after r e);
      history = c.history;
      unspoolable = (bad, c.unspoolable);
    })
    | inr (b, good) ↦
        let (written, holds) = write-Holds codec g.spool c.spooled r b good c.holds in
        rw written (record {
          spooled = c.spooled ++ (r ∷ []);
          holds = holds;
          balance = λ p. omega (
            arith,
            c.balance p,
            taken p g.in_flight before after r e,
            tally-append p c.spooled (r ∷ []),
          );
          history = c.history;
          unspoolable = c.unspoolable;
        })
  ]

  settle-Conserved :
      (g : Gateway) (before after : List Reading) (r : Reading) (outcome : Outcome)
      → g.in_flight ≡ before ++ (r ∷ after)
      → Conserved g
      → Conserved (settle codec (record g { in_flight = before ++ after }) r outcome)
  unfolding settle
  settle-Conserved g before after r acked e c = record {
    spooled = c.spooled;
    holds = c.holds;
    balance = λ p. omega (arith, c.balance p, taken p g.in_flight before after r e);
    history = c.history;
    unspoolable = c.unspoolable;
  }
  settle-Conserved g before after r refused e c = respool-Conserved g g.repeated before after r e c
  settle-Conserved g before after r unacked e c =
      respool-Conserved g (r ∷ g.repeated) before after r e c

  Step-Conserved : (g h : Gateway) → Step codec g h → Conserved g → Conserved h
  Step-Conserved g h (arrival r e) c = rw e (arrive-Conserved g r c)
  Step-Conserved g h (drain e) c = rw e (start_drain-Conserved g c)
  Step-Conserved g h (settled before after r outcome flight e) c =
      rw e (settle-Conserved g before after r outcome flight c)

  -- In every state that connections, drains and retries can reach on a disk that works, in every
  -- interleaving and with every outcome of the producer: the spool file holds whole records, the
  -- admitted readings are those that the deduplication admits of all that arrived, and each is, as
  -- often as it was admitted, acknowledged by Kafka, in the spool, held by a goroutine, or dropped
  -- because it does not marshal.
  pub Reach-Conserved : {g : Gateway} → Reach codec g → Conserved g
  Reach-Conserved started = start-Conserved
  Reach-Conserved (next {g} {h} reach step) = Step-Conserved g h step (Reach-Conserved reach)
