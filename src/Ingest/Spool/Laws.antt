-- ===== src/Ingest/Spool/Laws.antt =====
-- The spool as a queue of records: what `Write` and `Drain` do to its content, and what a fault does.
use device_telemetry_gateway.Common.{
  ℕ, ◌+◌, ◌-◌, ◌<◌, ◌≡◌, refl, sym, ap, ◌∙◌, false, List, [], ◌∷◌, ◌++◌, none, some, length, take,
  drop, take-append, drop_all, length-append, All, append-nil, arith, Option-cases, inl, inr,
  All-append,
}
use device_telemetry_gateway.Proto.{Codec}
use device_telemetry_gateway.Ingest.Spool.{
  Spool, ok, err, marshal_error, WriteFault, no_fault, frame, write_at, write, drain, read_records,
  new_spool, size_bytes,
}
use device_telemetry_gateway.Ingest.Spool.Frames.{
  frames, frames-append, Fits, length-frame, decoded, read_records-frames,
  read_records-frames_whole,
}

-- At the end of the file a write appends.
write_at_end : (file bytes : List ℕ) → write_at file (length file) bytes ≡ file ++ bytes
write_at_end file bytes =
    let no_hole : length file - length file ≡ 0 = omega arith in
    rw (no_hole, take-append file [], drop_past) (rw append-nil)
  where
    drop_past : drop (length file + length bytes) file ≡ []
    drop_past = drop_all (length file + length bytes) file (omega arith)

module _ {A : Type 0} (codec : Codec A) where
  -- The file is a sequence of whole records that decode to the list (corrupt ones are skipped), the
  -- next write goes to its end, and no write has failed.
  pub record Holds (s : Spool) (rs : List A) : Type 0 where
    pub payloads : List (List ℕ)
    pub written : s.file ≡ frames payloads
    pub fits : All Fits payloads
    pub contents : decoded codec payloads ≡ rs
    pub at_end : s.offset ≡ length s.file
    pub working : s.failed ≡ false

  pub new_spool-Holds : Holds (new_spool []) []
  unfolding new_spool
  new_spool-Holds = record {
    payloads = [];
    written = refl;
    fits = tt;
    contents = refl;
    at_end = refl;
    working = refl;
  }

  decoded-snoc :
      (bs : List (List ℕ)) (b : List ℕ) (a : A)
      → codec.unmarshal b ≡ some a
      → decoded codec (bs ++ (b ∷ [])) ≡ decoded codec bs ++ (a ∷ [])
  decoded-snoc [] b a h = rw h
  decoded-snoc (c ∷ bs) b a h = elim (Option-cases (codec.unmarshal c)) [
    | inl bad ↦ rw bad (decoded-snoc bs b a h)
    | inr (x, good) ↦ rw good (ap (◌∷◌ x) (decoded-snoc bs b a h))
  ]

  -- On a working disk, `Write` of a record that marshals succeeds and appends it to what the spool holds.
  pub write-Holds :
      (s : Spool) (rs : List A) (a : A) (b : List ℕ)
      → codec.marshal a ≡ some b
      → Holds s rs
      → ((write codec s a none).1 ≡ ok tt) × Holds (write codec s a none).0 (rs ++ (a ∷ []))
  unfolding write
  write-Holds s rs a b m h =
      let joined : write_at s.file s.offset (frame b) ≡ s.file ++ frame b =
        ap (λ o. write_at s.file o (frame b)) h.at_end ∙ write_at_end s.file (frame b) in
      rw (m, h.working)
        (
          refl,
          record {
            payloads = h.payloads ++ (b ∷ []);
            written =
                joined
                ∙ ap (λ t. t ++ frame b) h.written
                ∙ rw (frames-append h.payloads (b ∷ []), append-nil);
            fits = All-append Fits h.payloads (b ∷ []) h.fits (omega (arith, codec.fits a b m), tt);
            contents =
                decoded-snoc h.payloads b a (codec.reads_back a b m)
                ∙ ap (λ t. t ++ (a ∷ [])) h.contents;
            at_end = omega (
              arith,
              h.at_end,
              ap (λ (t : List ℕ). length t) joined,
              length-append s.file (frame b),
            );
            working = refl;
          },
        )

  -- On a working disk, `Drain` returns every record that the spool holds, in the order of the writes, and
  -- leaves the spool empty.
  pub drain-Holds :
      (s : Spool) (rs : List A)
      → Holds s rs
      → ((drain codec s no_fault).1 ≡ ok rs) × Holds (drain codec s no_fault).0 []
  unfolding drain
  drain-Holds s rs h = rw h.working (
    ap ok (
        ap (read_records codec) h.written
        ∙ read_records-frames_whole codec h.payloads h.fits
        ∙ h.contents),
    record {
      payloads = [];
      written = refl;
      fits = tt;
      contents = refl;
      at_end = refl;
      working = refl;
    },
  )

  -- A failed `Marshal` writes nothing.
  pub write_unmarshallable :
      (s : Spool) (a : A) (fault : WriteFault)
      → codec.marshal a ≡ none
      → write codec s a fault ≡ (s, err marshal_error)
  unfolding write
  write_unmarshallable s a fault m = rw m

  -- `SizeBytes` is 0 only if nothing is left to drain.
  pub size_bytes-zero : (s : Spool) (rs : List A) → Holds s rs → size_bytes s ≡ ok 0 → rs ≡ []
  unfolding size_bytes
  size_bytes-zero s rs h e =
      sym h.contents
      ∙ empty h.payloads (ap (λ (t : List ℕ). length t) (sym h.written) ∙ (ground arith))
    where
      empty : (bs : List (List ℕ)) → length (frames bs) ≡ 0 → decoded codec bs ≡ []
      empty [] z = refl
      empty (b ∷ bs) z = absurd (omega (arith, length-append (frame b) (frames bs), length-frame b))

  -- A crash in the middle of the write of a record that marshals costs that record alone: after a restart,
  -- a drain returns every record before it.
  pub restart_after_torn_write :
      (s : Spool) (rs : List A) (a : A) (b : List ℕ) (n : ℕ)
      → codec.marshal a ≡ some b
      → n < length (frame b)
      → Holds s rs
      → (drain codec (new_spool (write codec s a (some n)).0.file) no_fault).1 ≡ ok rs
  unfolding drain new_spool write
  restart_after_torn_write s rs a b n m torn h =
      let part = take n (frame b) in
      let joined : write_at s.file s.offset part ≡ frames h.payloads ++ part =
        ap (λ o. write_at s.file o part) h.at_end
        ∙ write_at_end s.file part
        ∙ ap (λ t. t ++ part) h.written in
      rw (m, h.working)
        (ap ok (
          ap (read_records codec) joined
          ∙ read_records-frames codec h.payloads n b h.fits (omega (arith, codec.fits a b m)) torn
          ∙ h.contents))
