-- ===== src/Segment/Recompute/Listed.antt =====
-- Segments in lists, and the rows of one profile: what the comparison needs of them.
use device_telemetry_gateway.Common.{
  ℕ, zero, suc, none, ◌≤◌, Bool, true, false, ◌≡◌, ◌≢◌, ◌⊎◌, refl, subst, ap, Bool-cases, inl, inr,
  List, [], ◌∷◌, map, String, String_discrete, contains, select, length, Distinct, arith,
}
use device_telemetry_gateway.Proto.{StorefrontEvent}
use device_telemetry_gateway.Segment.Definitions.{Segment}
use device_telemetry_gateway.Segment.Evaluate.Batch.{ids}
use device_telemetry_gateway.Segment.Hashes.{Known, entry}
use device_telemetry_gateway.Segment.Recompute.{ch_row, group_of}

pub nil_of_length : {A : Type 0} (xs : List A) → length xs ≡ 0 → xs ≡ []
nil_of_length [] h = refl
nil_of_length (x ∷ xs) h = absurd (omega arith)

pub none-entry : (n : ℕ) → none ≡ entry n → n ≡ 0
none-entry zero h = refl
none-entry (suc n) h = absurd (ground arith)

-- Whether a segment is one of a list.
abbrev pub In : {A : Type 0} → A → List A → Type 0
In y [] = ⊥
In y (x ∷ xs) = (x ≡ y) ⊎ In y xs

abbrev pub nothing : Known
nothing = record { stats = λ f. 0; views = λ c. 0 }

pub In-ids :
    {F : Type 0} (seg : Segment F) (segs : List (Segment F))
    → In seg segs
    → contains String_discrete (ids segs) seg.id ≡ true
unfolding contains
In-ids seg [] h = absurd h
In-ids seg (x ∷ xs) (inl e) = ground (arith, ap (λ (y : Segment _). y.id) e)
In-ids seg (x ∷ xs) (inr h) = ground (arith, In-ids seg xs h)

-- Of segments with different ids, an id is selected if its segment is.
pub lacks-select :
    {F : Type 0} (f : Segment F → Bool) (segs : List (Segment F)) (id : String)
    → contains String_discrete (ids segs) id ≡ false
    → contains String_discrete (ids (select f segs)) id ≡ false
unfolding contains
lacks-select f [] id h = refl
lacks-select f (x ∷ xs) id h = ground (arith, lacks-select f xs id)

pub contains-select :
    {F : Type 0} (f : Segment F → Bool) (seg : Segment F) (segs : List (Segment F))
    → Distinct String_discrete (ids segs)
    → In seg segs
    → contains String_discrete (ids (select f segs)) seg.id ≡ f seg
unfolding contains
contains-select f seg [] d h = absurd h
contains-select f seg (x ∷ xs) d (inl e) =
    subst (λ y. contains String_discrete (ids (select f (x ∷ xs))) y.id ≡ f y) e
      (elim (Bool-cases (f x)) [
        | inl yes_ ↦ rw yes_ (ground arith)
        | inr no_ ↦ rw no_ (lacks-select f xs x.id d.0)
      ])
contains-select f seg (x ∷ xs) d (inr h) =
    let apart : seg.id ≢ x.id = λ e. cc (In-ids seg xs h, d.0) in
    elim (Bool-cases (f x)) [
      | inl yes_ ↦ rw yes_ (ground (arith, contains-select f seg xs d.1 h))
      | inr no_ ↦ rw no_ (contains-select f seg xs d.1 h)
    ]

pub group_le_length :
    (p : String) (evs : List StorefrontEvent) → length (group_of p (map ch_row evs)) ≤ length evs
group_le_length p [] = omega arith
group_le_length p (ev ∷ evs) = ground (arith, group_le_length p evs)
