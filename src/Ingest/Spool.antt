-- ===== src/Ingest/Spool.antt =====
-- internal/ingest/spool.go: an append-only file of length-prefixed records. The mutex makes every
-- method one step. The faults of the disk are arguments of the methods.
pub mod Frames
pub mod Laws
pub mod Faults
use device_telemetry_gateway.Common.{
  ℕ, zero, suc, ◌+◌, ◌-◌, ◌*◌, ◌/◌, ◌%◌, ◌^◌, ◌≡◌, Bool, true, false, if◌then◌else◌, ltb, leb, List,
  [], ◌∷◌, ◌++◌, Option, none, some, length, take, drop,
}
use device_telemetry_gateway.Proto.{Codec}

-- `file` is the file's content and `offset` its position. `failed` is the sticky error of the
-- `bufio.Writer`: after one failed write to the file every `Write` and `Flush` returns it at once.
pub record Spool : Type 0 where
  pub file : List ℕ
  pub offset : ℕ
  pub failed : Bool

pub data SpoolError : Type 0 where
  marshal_error write_error seek_error truncate_error : SpoolError

pub data Result (A : Type 0) : Type 0 where
  ok : A → Result A
  err : SpoolError → Result A

-- `NewSpool` on a file with the given content: it seeks to the end.
unfoldable pub new_spool : List ℕ → Spool
new_spool content = record { file = content; offset = length content; failed = false }

abbrev pub zeros : ℕ → List ℕ
zeros zero = []
zeros (suc n) = 0 ∷ zeros n

-- A write at a position of the file. Past the end it leaves a hole, which reads as zeros.
abbrev pub write_at : List ℕ → ℕ → List ℕ → List ℕ
write_at file offset bytes =
    take offset (file ++ zeros (offset - length file))
    ++ (bytes ++ drop (offset + length bytes) file)

-- `binary.BigEndian.PutUint32` and `Uint32`.
unfoldable pub put_uint32 : ℕ → List ℕ
put_uint32 n = (n / 2 ^ 24 % 256) ∷ (n / 2 ^ 16 % 256) ∷ (n / 2 ^ 8 % 256) ∷ (n % 256) ∷ []

pub uint32 : ℕ → ℕ → ℕ → ℕ → ℕ
uint32 a b c d = a * 2 ^ 24 + b * 2 ^ 16 + c * 2 ^ 8 + d

-- The bytes of one record: `uint32(len(b))`, then `b`.
unfoldable pub frame : List ℕ → List ℕ
frame b = put_uint32 (length b % 2 ^ 32) ++ b

-- What the operating system does to one `Write`: `some n` is a failure after `n` bytes.
abbrev pub WriteFault : Type 0
WriteFault = Option ℕ

append_bytes : Spool → List ℕ → Spool
append_bytes s bytes = record s {
  file = write_at s.file s.offset bytes;
  offset = s.offset + length bytes;
}

write_frame : Spool → List ℕ → WriteFault → Spool × Result (Unit {0})
unfolding append_bytes
write_frame s bytes none = (append_bytes s bytes, ok tt)
write_frame s bytes (some n) =
    (record (append_bytes s (take n bytes)) { failed = true }, err write_error)

-- What goes wrong in one `Drain`. `read_stops n` is a read error after `n` bytes, which the loop takes
-- for the end of the file.
pub data DrainFault : Type 0 where
  no_fault seek_fails truncate_fails rewind_fails : DrainFault
  read_stops : ℕ → DrainFault

abbrev pub keep {ℓ} : {A : Type ℓ} → Option A → List A → List A
keep none out = out
keep (some a) out = a ∷ out

abbrev pub keep_first {ℓ} : {A : Type ℓ} → Option A → Option (List A) → Option (List A)
keep_first first none = none
keep_first first (some out) = some (keep first out)

abbrev pub or_empty {ℓ} : {A : Type ℓ} → Option (List A) → List A
or_empty none = []
or_empty (some out) = out

module _ {A : Type 0} (codec : Codec A) where
  write_marshalled : Spool → Option (List ℕ) → WriteFault → Spool × Result (Unit {0})
  unfolding write_frame frame
  write_marshalled s none fault = (s, err marshal_error)
  write_marshalled s (some b) fault =
      if s.failed then (s, err write_error) else write_frame s (frame b) fault

  unfoldable pub write : Spool → A → WriteFault → Spool × Result (Unit {0})
  unfolding write_marshalled
  write s a fault = write_marshalled s (codec.marshal a) fault

  -- The loop of `Drain`: a short header or a short payload ends it, a payload that does not decode is
  -- skipped. `none` is a loop that has not ended within the fuel.
  pub read_loop : ℕ → List ℕ → Option (List A)
  unfolding uint32
  read_loop zero bytes = none
  read_loop (suc fuel) (a ∷ b ∷ c ∷ d ∷ rest) =
      let n = uint32 a b c d in
      let more = keep_first (codec.unmarshal (take n rest)) (read_loop fuel (drop n rest)) in
      if ltb (length rest) n then some [] else more
  read_loop (suc fuel) _ = some []

  -- A round takes four bytes at least, so one round more than there are bytes is enough: the loop never
  -- answers `none` here.
  pub read_records : List ℕ → List A
  unfolding read_loop
  read_records bytes = or_empty (read_loop (suc (length bytes)) bytes)

  -- Everything after the `Flush`.
  drain_file : Spool → DrainFault → Spool × Result (List A)
  drain_file s no_fault =
      (record { file = []; offset = 0; failed = false }, ok (read_records s.file))
  drain_file s (read_stops n) =
      (record { file = []; offset = 0; failed = false }, ok (read_records (take n s.file)))
  drain_file s seek_fails = (s, err seek_error)
  drain_file s truncate_fails = (record s { offset = length s.file }, err truncate_error)
  drain_file s rewind_fails = (record s { file = []; offset = length s.file }, err seek_error)

  -- `Flush` returns the sticky error; with nothing buffered it does nothing else.
  unfoldable pub drain : Spool → DrainFault → Spool × Result (List A)
  unfolding drain_file read_records
  drain s fault = if s.failed then (s, err write_error) else drain_file s fault

unfoldable pub size_bytes : Spool → Result ℕ
size_bytes s = if s.failed then err write_error else ok (length s.file)
