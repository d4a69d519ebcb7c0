-- ===== src/Ingest/Spool/Frames.antt =====
-- The record format: what is framed reads back, with corrupt records skipped and a torn end dropped.
use device_telemetry_gateway.Common.{
  drop, if◌then◌else◌, ℕ, zero, suc, ◌+◌, ◌/◌, ◌%◌, ◌^◌, ◌≤◌, ◌<◌, ◌≡◌, refl, sym, ap, ◌∙◌, true,
  false, ltb, List, [], ◌∷◌, ◌++◌, length, take, take-append, drop-append, length-append,
  length-take, All, append_assoc, append-nil, arith, some, Bool-cases, inl, inr,
}
use device_telemetry_gateway.Proto.{Codec}
use device_telemetry_gateway.Ingest.Spool.{
  put_uint32, uint32, frame, keep, keep_first, or_empty, read_loop, read_records,
}

pub uint32-put_uint32 :
    (n : ℕ)
    → n < 2 ^ 32
    → uint32 (n / 2 ^ 24 % 256) (n / 2 ^ 16 % 256) (n / 2 ^ 8 % 256) (n % 256) ≡ n
unfolding uint32
uint32-put_uint32 n h = omega arith

pub length-frame : (b : List ℕ) → length (frame b) ≡ 4 + length b
unfolding frame put_uint32
length-frame b = omega arith

abbrev pub frames : List (List ℕ) → List ℕ
frames [] = []
frames (b ∷ bs) = frame b ++ frames bs

pub frames-append : (bs cs : List (List ℕ)) → frames (bs ++ cs) ≡ frames bs ++ frames cs
frames-append [] cs = refl
frames-append (b ∷ bs) cs = ap (λ t. frame b ++ t) (frames-append bs cs) ∙ rw append_assoc

abbrev pub Fits : List ℕ → Type 0
Fits b = length b < 2 ^ 32

not_short : (b rest : List ℕ) → ltb (length (b ++ rest)) (length b) ≡ false
not_short b rest = ground (arith, length-append b rest)

short : (k : ℕ) (b : List ℕ) → k < length b → ltb (length (take k b)) (length b) ≡ true
short k b h = ground (arith, length-take k b)

module _ {A : Type 0} (codec : Codec A) where
  -- The payloads that decode, in order.
  abbrev pub decoded : List (List ℕ) → List A
  decoded [] = []
  decoded (b ∷ bs) = keep (codec.unmarshal b) (decoded bs)

  read_loop-frame :
      (fuel : ℕ) (b rest : List ℕ)
      → Fits b
      → read_loop codec (suc fuel) (frame b ++ rest)
        ≡ keep_first (codec.unmarshal b) (read_loop codec fuel rest)
  unfolding read_loop frame put_uint32
  read_loop-frame fuel b rest h =
      let whole : length b % 2 ^ 32 ≡ length b = omega arith in
      rw (
        whole,
        uint32-put_uint32 (length b) h,
        not_short b rest,
        take-append b rest,
        drop-append b rest,
      )

  read_loop_torn :
      (fuel n : ℕ) (b : List ℕ)
      → Fits b
      → n < length (frame b)
      → read_loop codec (suc fuel) (take n (frame b)) ≡ some []
  unfolding read_loop frame put_uint32
  read_loop_torn fuel zero b fits h = refl
  read_loop_torn fuel (suc zero) b fits h = refl
  read_loop_torn fuel (suc (suc zero)) b fits h = refl
  read_loop_torn fuel (suc (suc (suc zero))) b fits h = refl
  read_loop_torn fuel (suc (suc (suc (suc n)))) b fits h =
      let whole : length b % 2 ^ 32 ≡ length b = omega arith in
      rw (whole, uint32-put_uint32 (length b) fits, short n b (omega arith))

  read_loop-frames :
      (fuel n : ℕ) (bs : List (List ℕ)) (last : List ℕ)
      → All Fits bs
      → Fits last
      → n < length (frame last)
      → length (frames bs) < fuel
      → read_loop codec fuel (frames bs ++ take n (frame last)) ≡ some (decoded bs)
  read_loop-frames zero n bs last h fits torn room = absurd (omega arith)
  read_loop-frames (suc fuel) n [] last h fits torn room = read_loop_torn fuel n last fits torn
  read_loop-frames (suc fuel) n (b ∷ bs) last h fits torn room =
      ap (read_loop codec (suc fuel)) (append_assoc (frame b) (frames bs) (take n (frame last)))
      ∙ read_loop-frame fuel b (frames bs ++ take n (frame last)) h.0
      ∙ ap (keep_first (codec.unmarshal b)) (
          read_loop-frames fuel n bs last h.1 fits torn
            (omega (arith, length-frame b, length-append (frame b) (frames bs))))

  -- A spool file of records below 4 GiB, some of which may not decode, followed by a record that a crash
  -- cut short, reads back as the payloads that decode, in order: no complete record is lost to a corrupt
  -- one or to a torn end.
  pub read_records-frames :
      (bs : List (List ℕ)) (n : ℕ) (last : List ℕ)
      → All Fits bs
      → Fits last
      → n < length (frame last)
      → read_records codec (frames bs ++ take n (frame last)) ≡ decoded bs
  unfolding read_records
  read_records-frames bs n last h fits torn = ap or_empty (
      read_loop-frames (suc (length (frames bs ++ take n (frame last)))) n bs last h fits torn
        (omega (arith, length-append (frames bs) (take n (frame last)))))

  pub read_records-frames_whole :
      (bs : List (List ℕ)) → All Fits bs → read_records codec (frames bs) ≡ decoded bs
  read_records-frames_whole bs h =
      ap (read_records codec) (sym (append-nil (frames bs)))
      ∙ read_records-frames bs 0 [] h (omega arith) (omega (arith, length-frame []))

  length-drop_le : (n : ℕ) (xs : List ℕ) → length (drop n xs) ≤ length xs
  length-drop_le zero xs = omega arith
  length-drop_le (suc n) [] = omega arith
  length-drop_le (suc n) (x ∷ xs) = omega (arith, length-drop_le n xs)

  read_loop_ends :
      (f : ℕ) (bytes : List ℕ)
      → length bytes < f
      → (out : List A) × (read_loop codec f bytes ≡ some out)
  unfolding read_loop
  read_loop_ends zero bytes h = absurd (omega arith)
  read_loop_ends (suc f) [] h = ([], refl)
  read_loop_ends (suc f) (a ∷ []) h = ([], refl)
  read_loop_ends (suc f) (a ∷ b ∷ []) h = ([], refl)
  read_loop_ends (suc f) (a ∷ b ∷ c ∷ []) h = ([], refl)
  read_loop_ends (suc f) (a ∷ b ∷ c ∷ d ∷ rest) h =
      let n = uint32 a b c d in
      let (out, ends) = read_loop_ends f (drop n rest) (omega (arith, length-drop_le n rest)) in
      elim (Bool-cases (ltb (length rest) n)) [
        | inl cut ↦ ([], rw cut)
        | inr whole ↦ (keep (codec.unmarshal (take n rest)) out, rw (whole, ends))
      ]

  read_loop-same :
      (f g : ℕ) (bytes : List ℕ)
      → length bytes < f
      → length bytes < g
      → read_loop codec f bytes ≡ read_loop codec g bytes
  unfolding read_loop
  read_loop-same zero g bytes h k = absurd (omega arith)
  read_loop-same (suc f) zero bytes h k = absurd (omega arith)
  read_loop-same (suc f) (suc g) [] h k = refl
  read_loop-same (suc f) (suc g) (a ∷ []) h k = refl
  read_loop-same (suc f) (suc g) (a ∷ b ∷ []) h k = refl
  read_loop-same (suc f) (suc g) (a ∷ b ∷ c ∷ []) h k = refl
  read_loop-same (suc f) (suc g) (a ∷ b ∷ c ∷ d ∷ rest) h k =
      let n = uint32 a b c d in
      ap
        (λ out.
          if ltb (length rest) n then some [] else keep_first (codec.unmarshal (take n rest)) out)
        (read_loop-same f g (drop n rest) (omega (arith, length-drop_le n rest))
          (omega (arith, length-drop_le n rest)))

  -- The loop of `Drain` ends by itself on any bytes: with any fuel above their number it returns a result,
  -- always the same one, never the `none` of a loop that goes on.
  pub read_loop_enough :
      (f : ℕ) (bytes : List ℕ)
      → length bytes < f
      → read_loop codec f bytes ≡ some (read_records codec bytes)
  unfolding read_records
  read_loop_enough f bytes h =
      let (out, ends) = read_loop_ends f bytes h in
      let same = read_loop-same (suc (length bytes)) f bytes (omega arith) h in
      ends ∙ ap (λ t. some (or_empty t)) (sym (same ∙ ends))
