-- ===== src/Fifo/Valid.antt =====
-- The invariant of the bounded set, and what one call does to it.
use device_telemetry_gateway.Common.{
  ℕ, ◌+◌, ◌-◌, ◌≤◌, ◌≡◌, refl, ◌∙◌, true, false, not, List, [], ◌∷◌, ◌++◌, arith, length, contains,
  Distinct, ltb, contains-append, contains-remove, remove-Distinct, length-remove, Distinct-snoc,
  length-append, Bool-cases, inl, inr,
}
use device_telemetry_gateway.Fifo.{Fifo, empty, evict, admit}
use device_telemetry_gateway.Fifo.Newest.{newest, newest_of_length-le}

pub record IsFifo {A : Type 0} (dec : Discrete A) (cap : ℕ) (f : Fifo A) : Type 0 where
  pub same : (x : A) → contains dec f.set x ≡ contains dec f.order x
  pub set_distinct : Distinct dec f.set
  pub order_distinct : Distinct dec f.order
  pub sizes : length f.set ≡ length f.order
  pub bounded : length f.order ≤ cap

module _ {A : Type 0} (dec : Discrete A) (cap : ℕ) where
  pub empty-IsFifo : IsFifo dec cap empty
  unfolding contains
  empty-IsFifo = record {
    same = λ x. refl;
    set_distinct = tt;
    order_distinct = tt;
    sizes = refl;
    bounded = omega arith;
  }

  -- Before the eviction the queue may be one over.
  evict-IsFifo :
      (set order : List A)
      → ((x : A) → contains dec set x ≡ contains dec order x)
      → Distinct dec set
      → Distinct dec order
      → length set ≡ length order
      → length order ≤ cap + 1
      → IsFifo dec cap (evict dec cap set order)
  unfolding evict contains
  evict-IsFifo set [] same sd od sizes h = record {
    same = same;
    set_distinct = sd;
    order_distinct = od;
    sizes = sizes;
    bounded = omega arith;
  }
  evict-IsFifo set (x ∷ rest) same sd od sizes h = elim (Bool-cases (ltb cap (length (x ∷ rest)))) [
    | inl over ↦ rw over (record {
      same = λ y. ground (arith, contains-remove dec set x y, same y);
      set_distinct = remove-Distinct dec set x sd;
      order_distinct = od.1;
      sizes = ground (arith, length-remove dec set x sd, same x);
      bounded = omega arith;
    })
    | inr fits ↦ rw fits (record {
      same = same;
      set_distinct = sd;
      order_distinct = od;
      sizes = sizes;
      bounded = ground arith;
    })
  ]

  pub admit-IsFifo : (f : Fifo A) (x : A) → IsFifo dec cap f → IsFifo dec cap (admit dec cap f x).0
  unfolding admit contains
  admit-IsFifo f x v = elim (Bool-cases (contains dec f.set x)) [
    | inl seen ↦ rw seen v
    | inr fresh ↦ rw fresh (
        evict-IsFifo (x ∷ f.set) (f.order ++ (x ∷ []))
          (λ y. ground (arith, contains-append dec f.order (x ∷ []) y, v.same y))
          (fresh, v.set_distinct)
          (Distinct-snoc dec f.order x v.order_distinct (ground (arith, v.same x)))
          (omega (arith, length-append f.order (x ∷ []), v.sizes))
          (omega (arith, length-append f.order (x ∷ []), v.bounded)))
  ]

  -- What the queue holds after an eviction: the newest `cap` entries.
  pub order-evict :
      (set order : List A)
      → length order ≤ cap + 1
      → (evict dec cap set order).order ≡ newest cap order
  unfolding evict
  order-evict set [] h = rw (newest_of_length-le {A = A} cap [] (omega arith))
  order-evict set (x ∷ rest) h = elim (Bool-cases (ltb cap (length (x ∷ rest)))) [
    | inl over ↦ let one_over : length (x ∷ rest) - cap ≡ 1 = ground arith in rw (over, one_over)
    | inr fits ↦ rw (fits, newest_of_length-le cap (x ∷ rest) (ground arith))
  ]

  -- A fresh element joins the queue, which keeps its newest `cap` entries.
  pub order-admit_fresh :
      (f : Fifo A) (x : A)
      → IsFifo dec cap f
      → contains dec f.order x ≡ false
      → ((admit dec cap f x).1 ≡ true)
        × ((admit dec cap f x).0.order ≡ newest cap (f.order ++ (x ∷ [])))
  unfolding admit
  order-admit_fresh f x v h =
      let absent : contains dec f.set x ≡ false = v.same x ∙ h in
      rw absent (
        refl,
        order-evict (x ∷ f.set) (f.order ++ (x ∷ []))
            (omega (arith, length-append f.order (x ∷ []), v.bounded)),
      )

  -- An element of the queue is refused, and nothing changes.
  pub admit_seen :
      (f : Fifo A) (x : A)
      → IsFifo dec cap f
      → contains dec f.order x ≡ true
      → admit dec cap f x ≡ (f, false)
  unfolding admit
  admit_seen f x v h = let present : contains dec f.set x ≡ true = v.same x ∙ h in rw present

  -- The verdict: fresh exactly when the queue does not hold the element.
  pub admit_verdict :
      (f : Fifo A) (x : A) → IsFifo dec cap f → (admit dec cap f x).1 ≡ not (contains dec f.order x)
  admit_verdict f x v = elim (Bool-cases (contains dec f.order x)) [
    | inl seen ↦ rw (admit_seen f x v seen, seen)
    | inr fresh ↦ rw ((order-admit_fresh f x v fresh).0, fresh)
  ]
