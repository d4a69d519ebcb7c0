-- ===== src/Fifo/Runs.antt =====
-- Runs of calls: the queue is the newest part of what was admitted, and a run that never fills the
-- set admits exactly the first occurrences.
use device_telemetry_gateway.Common.{
  ℕ, ◌+◌, ◌≤◌, ◌≡◌, refl, ◌∙◌, true, false, List, [], ◌∷◌, ◌++◌, arith, length, contains, map,
  contains-append, Bool-cases, inl, inr, length-append, append_assoc, append-nil, reference, ap,
}
use device_telemetry_gateway.Fifo.{Fifo, admit, admit_all}
use device_telemetry_gateway.Fifo.Newest.{newest, newest_of_length-le, newest-append}
use device_telemetry_gateway.Fifo.Valid.{IsFifo, admit-IsFifo, order-admit_fresh, admit_seen}

module _ {A : Type 0} (dec : Discrete A) (cap : ℕ) where
  -- A queue with room keeps all of its elements, the new one last.
  pub order-admit_room :
      (f : Fifo A) (x : A)
      → IsFifo dec cap f
      → contains dec f.order x ≡ false
      → length f.order + 1 ≤ cap
      → (admit dec cap f x).0.order ≡ f.order ++ (x ∷ [])
  order-admit_room f x v fresh room =
      (order-admit_fresh dec cap f x v fresh).1
      ∙ newest_of_length-le cap (f.order ++ (x ∷ []))
          (omega (arith, length-append f.order (x ∷ [])))

  module _ {R : Type 0} (key : R → A) where
    pub admit_all-IsFifo :
        (f : Fifo A) (rs : List R)
        → IsFifo dec cap f
        → IsFifo dec cap (admit_all dec cap key f rs).0
    unfolding admit_all
    admit_all-IsFifo f [] v = v
    admit_all-IsFifo f (r ∷ rs) v =
        admit_all-IsFifo (admit dec cap f (key r)).0 rs (admit-IsFifo dec cap f (key r) v)

    -- The queue after a run is the newest `cap` of the old queue and the elements admitted.
    pub order-admit_all :
        (f : Fifo A) (rs : List R)
        → IsFifo dec cap f
        → (admit_all dec cap key f rs).0.order
          ≡ newest cap (f.order ++ map key (admit_all dec cap key f rs).1)
    unfolding admit_all
    order-admit_all f [] v = rw (append-nil, newest_of_length-le cap f.order v.bounded)
    order-admit_all f (r ∷ rs) v = elim (Bool-cases (contains dec f.order (key r))) [
      | inl seen ↦ rw (admit_seen dec cap f (key r) v seen) (order-admit_all f rs v)
      | inr fresh ↦
          let x = key r in
          let g = (admit dec cap f x).0 in
          let (kept, queue) = order-admit_fresh dec cap f x v fresh in
          let out = map key (admit_all dec cap key g rs).1 in
          rw kept (
            order-admit_all g rs (admit-IsFifo dec cap f x v)
            ∙ ap (λ q. newest cap (q ++ out)) queue
            ∙ newest-append cap (f.order ++ (x ∷ [])) out
            ∙ ap (newest cap) (append_assoc f.order (x ∷ []) out))
    ]

    -- From a queue that shares its elements with `seen` and has room for all that is new.
    pub admit_all-reference :
        (f : Fifo A) (seen : List A) (rs : List R)
        → IsFifo dec cap f
        → ((x : A) → contains dec seen x ≡ contains dec f.order x)
        → length f.order + length (reference dec key seen rs) ≤ cap
        → (admit_all dec cap key f rs).1 ≡ reference dec key seen rs
    unfolding admit_all reference contains
    admit_all-reference f seen [] v same room = refl
    admit_all-reference f seen (r ∷ rs) v same room =
        let x = key r in
        elim (Bool-cases (contains dec f.order x)) [
          | inl old ↦
              let known : contains dec seen x ≡ true = same x ∙ old in
              let room' : length f.order + length (reference dec key seen rs) ≤ cap =
                ground arith in
              rw (admit_seen dec cap f x v old, known) (admit_all-reference f seen rs v same room')
          | inr fresh ↦
              let known : contains dec seen x ≡ false = same x ∙ fresh in
              let g = (admit dec cap f x).0 in
              let space : length f.order + length (reference dec key (x ∷ seen) rs) + 1 ≤ cap =
                ground arith in
              let whole : g.order ≡ f.order ++ (x ∷ []) =
                order-admit_room f x v fresh (omega arith) in
              rw ((order-admit_fresh dec cap f x v fresh).0, known)
                (ap (◌∷◌ r) (
                  admit_all-reference g (x ∷ seen) rs (admit-IsFifo dec cap f x v)
                    (λ y. ground (
                      arith,
                      same y,
                      contains-append dec f.order (x ∷ []) y,
                      ap (λ (o : List A). contains dec o y) whole,
                    ))
                    (omega (
                      arith,
                      ap (λ (o : List A). length o) whole,
                      length-append f.order (x ∷ []),
                    ))))
        ]
