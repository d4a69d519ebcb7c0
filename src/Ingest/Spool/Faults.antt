-- ===== src/Ingest/Spool/Faults.antt =====
-- After a failed write to the file: the sticky error of the buffered writer.
use device_telemetry_gateway.Common.{
  ℕ, ◌≡◌, refl, true, false, List, [], ◌∷◌, ◌++◌, some, Option-cases, inl, inr,
}
use device_telemetry_gateway.Proto.{Codec}
use device_telemetry_gateway.Ingest.Spool.{
  Spool, Result, ok, err, write_error, WriteFault, DrainFault, write, drain,
}

-- A call of the spool, with what the disk does to it.
pub data Call (A : Type 0) : Type 0 where
  write_call : A → WriteFault → Call A
  drain_call : DrainFault → Call A

drained : {A : Type 0} → Result (List A) → List A
drained (ok rs) = rs
drained (err e) = []

module _ {A : Type 0} (codec : Codec A) where
  -- The spool after a sequence of calls, and all the records that the drains returned.
  pub calls : Spool → List (Call A) → Spool × List A
  unfolding drained
  calls s [] = (s, [])
  calls s (write_call a fault ∷ rest) = calls (write codec s a fault).0 rest
  calls s (drain_call fault ∷ rest) =
      let (s', result) = drain codec s fault in
      let (last, out) = calls s' rest in (last, drained result ++ out)

  write_failed :
      (s : Spool) (a : A) (fault : WriteFault) → s.failed ≡ true → (write codec s a fault).0 ≡ s
  unfolding write
  write_failed s a fault h = elim (Option-cases (codec.marshal a)) [
    | inl bad ↦ rw bad
    | inr (b, good) ↦ rw (good, h)
  ]

  drain_failed :
      (s : Spool) (fault : DrainFault)
      → s.failed ≡ true
      → drain codec s fault ≡ (s, err write_error)
  unfolding drain
  drain_failed s fault h = simp h

  calls_failed : (s : Spool) (cs : List (Call A)) → s.failed ≡ true → calls s cs ≡ (s, [])
  unfolding calls
  calls_failed s [] h = refl
  calls_failed s (write_call a fault ∷ cs) h = rw (write_failed s a fault h) (calls_failed s cs h)
  calls_failed s (drain_call fault ∷ cs) h = rw (drain_failed s fault h) (calls_failed s cs h)

  -- From the first failed disk write on, the spool is dead: whatever calls follow, on a disk that works
  -- again or not, no record is ever drained, none is added, and the file stays as the failed write
  -- left it.
  pub failed_write_is_final :
      (s : Spool) (a : A) (b : List ℕ) (n : ℕ) (cs : List (Call A))
      → s.failed ≡ false
      → codec.marshal a ≡ some b
      → let left = (write codec s a (some n)).0 in calls left cs ≡ (left, [])
  unfolding write
  failed_write_is_final s a b n cs working m =
      calls_failed (write codec s a (some n)).0 cs (rw (m, working))
