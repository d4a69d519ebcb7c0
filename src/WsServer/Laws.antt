-- ===== src/WsServer/Laws.antt =====
-- A whole connection: what reaches Kafka and the spool.
use device_telemetry_gateway.Common.{
  ℕ, ◌≡◌, refl, sym, ap, ◌∙◌, not, if◌then◌else◌, List, [], ◌∷◌, ◌++◌, Option, none, some, select,
  All, Bool-cases, Option-cases, inl, inr, append-nil,
}
use device_telemetry_gateway.Proto.{Reading, Codec}
use device_telemetry_gateway.Kafka.{Outcome, is_acked, lands}
use device_telemetry_gateway.Ingest.Dedup
use device_telemetry_gateway.Ingest.Dedup.{Dedup, admit_all}
use mathlib.Core.Path.{subst}
use device_telemetry_gateway.Ingest.Spool.{WriteFault, keep}
use device_telemetry_gateway.Ingest.Spool.Frames.{decoded}
use device_telemetry_gateway.Ingest.Spool.Laws.{Holds}
use device_telemetry_gateway.Ingest.Pipeline
use device_telemetry_gateway.Ingest.Pipeline.{Pipeline}
use device_telemetry_gateway.Ingest.Pipeline.Branches.{appended_if, appended-select, ingest-Holds}
use device_telemetry_gateway.WsServer.{handle_frame, handle_ingest}

module _ (codec : Codec Reading) where
  abbrev pub Connected :
      Pipeline → List Reading → List Reading → (Reading → Outcome) → Pipeline → Type 0
  Connected p old rs env after =
      let fresh = (admit_all p.dedup rs).1 in
      (after.dedup ≡ (admit_all p.dedup rs).0)
      × (after.topic ≡ p.topic ++ select (λ r. lands (env r)) fresh)
      × Holds codec after.spool (old ++ select (λ r. not (is_acked (env r))) fresh)

  after_step :
      (p p1 after : Pipeline) (r : Reading) (rs old : List Reading) (env : Reading → Outcome)
      → let (dedup', fresh) = Dedup.admit p.dedup r.device_id r.sequence in
        (p1.dedup ≡ dedup')
        → (p1.topic ≡ (
            if (Dedup.admit p.dedup r.device_id r.sequence).1
            then appended_if (lands (env r)) p.topic r
            else p.topic))
        → Connected p1
            (if (Dedup.admit p.dedup r.device_id r.sequence).1
              then appended_if (not (is_acked (env r))) old r
              else old)
            rs
            env
            after
        → Connected p old (r ∷ rs) env after
  unfolding admit_all
  after_step p p1 after r rs old env same topic rest =
      let (dedup', fresh) = Dedup.admit p.dedup r.device_id r.sequence in
      let kept = λ (q : Reading). not (is_acked (env q)) in
      let landed = λ (q : Reading). lands (env q) in
      let out = (admit_all dedup' rs).1 in
      let (state, topics, spools) = rw same at rest in
      elim (Bool-cases fresh) [
        | inl new ↦ rw new (
          state,
          topics
              ∙ ap (λ t. t ++ select landed out) (rw new at topic)
              ∙ appended-select codec landed p.topic out r,
          rw (appended-select codec kept old out r) at (rw new at spools),
        )
        | inr dup ↦
            rw dup
              (state, topics ∙ ap (λ t. t ++ select landed out) (rw dup at topic), rw dup at spools)
      ]

  handle_ingest_frame :
      (p : Pipeline) (message : List ℕ) (frames : List (List ℕ))
      (env : Reading → Outcome × WriteFault) (parsed : Option Reading)
      → codec.unmarshal message ≡ parsed
      → handle_ingest codec p (message ∷ frames) env
        ≡ handle_ingest codec (handle_frame codec p parsed env) frames env
  unfolding handle_ingest
  handle_ingest_frame p message frames env parsed e =
      ap (λ o. handle_ingest codec (handle_frame codec p o env) frames env) e

  -- A connection with no other at work, on a working disk, its frames in any order and some of them corrupt, with readings that
  -- marshal: of the readings that parse, those that the deduplication admits are handed to Kafka in
  -- order; those that land join the topic, and those that Kafka did not acknowledge are in the spool, in
  -- order. Nothing ends the connection early.
  pub handle_ingest-Holds :
      (p : Pipeline) (frames : List (List ℕ)) (env : Reading → Outcome) (old : List Reading)
      → All (λ r. (b : List ℕ) × (codec.marshal r ≡ some b)) (decoded codec frames)
      → Holds codec p.spool old
      → Connected p old
          (decoded codec frames)
          env
          (handle_ingest codec p frames (λ r. (env r, none)))
  unfolding handle_ingest handle_frame
  handle_ingest-Holds p [] env old m h = (
    unfold admit_all in refl,
    unfold admit_all in sym (append-nil p.topic),
    unfold admit_all in rw append-nil h,
  )
  handle_ingest-Holds p (message ∷ frames) env old m h =
      let rest = decoded codec frames in
      elim (Option-cases (codec.unmarshal message)) [
        | inl corrupt ↦
            subst (Connected p old (keep (codec.unmarshal message) rest) env)
              (sym (handle_ingest_frame p message frames (λ r. (env r, none)) none corrupt))
              (subst
                (λ o.
                  Connected p old (keep o rest) env
                    (handle_ingest codec p frames (λ r. (env r, none))))
                (sym corrupt) (handle_ingest-Holds p frames env old (rw corrupt at m) h))
        | inr (r, parsed) ↦
            let m1 : All (λ r. (b : List ℕ) × (codec.marshal r ≡ some b)) (r ∷ rest) =
              rw parsed at m in
            let p1 = (Pipeline.ingest codec p r (env r) none).0 in
            let (_, same, topic, holds) = ingest-Holds codec p r (env r) old m1.0.0 m1.0.1 h in
            let last = handle_ingest codec p1 frames (λ q. (env q, none)) in
            subst (Connected p old (keep (codec.unmarshal message) rest) env)
              (sym (handle_ingest_frame p message frames (λ q. (env q, none)) (some r) parsed))
              (subst (λ o. Connected p old (keep o rest) env last) (sym parsed)
                (after_step p p1 last r rest old env same topic
                  (handle_ingest-Holds p1 frames env _ m1.1 holds)))
      ]
