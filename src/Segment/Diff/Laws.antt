-- ===== src/Segment/Diff/Laws.antt =====
-- What a comparison of two sets of profiles says.
use device_telemetry_gateway.Common.{
  ℕ, ◌+◌, ◌≡◌, refl, ◌∙◌, sym, ◌↔◌, Bool, true, false, List, [], ◌∷◌, String, String_discrete,
  length, select, contains, Distinct, arith, Bool-cases, inl, inr, if◌then◌else◌,
}
use device_telemetry_gateway.Segment.Diff.{only, exact, diff_sets}

only-zero_all :
    (xs ys : List String) (x : String)
    → only xs ys ≡ 0
    → contains String_discrete xs x ≡ true
    → contains String_discrete ys x ≡ true
unfolding only contains
only-zero_all [] ys x none_left h = ground arith
only-zero_all (z ∷ xs) ys x none_left h = elim (Bool-cases (contains String_discrete ys z)) [
  | inl there ↦ elim (String_discrete x z) [
    | yes p ↦ rw p there
    | no p ↦ only-zero_all xs ys x (ground arith) (ground arith)
  ]
  | inr missing ↦ ground arith
]

only_of_all :
    (xs ys : List String)
    → ((x : String) → contains String_discrete xs x ≡ true → contains String_discrete ys x ≡ true)
    → only xs ys ≡ 0
unfolding only contains
only_of_all [] ys h = refl
only_of_all (z ∷ xs) ys h =
    let there : contains String_discrete ys z ≡ true = h z (ground arith) in
    rw there (only_of_all xs ys (λ x e. h x (ground arith)))

exact_split :
    (segment_id : String) (xs ys : List String)
    → exact (diff_sets segment_id xs ys) ≡ true
    → (only xs ys ≡ 0) × (only ys xs ≡ 0)
unfolding exact diff_sets
exact_split segment_id xs ys h = (ground arith, ground arith)

both_zero :
    (segment_id : String) (xs ys : List String)
    → only xs ys ≡ 0
    → only ys xs ≡ 0
    → exact (diff_sets segment_id xs ys) ≡ true
unfolding exact diff_sets
both_zero segment_id xs ys p q = ground (arith, p, q)

-- `Exact` holds exactly when the two sets have the same members.
pub exact-diff_sets :
    (segment_id : String) (incremental recompute : List String)
    → (exact (diff_sets segment_id incremental recompute) ≡ true) ↔ (
        (x : String)
        → contains String_discrete incremental x ≡ contains String_discrete recompute x)
exact-diff_sets segment_id xs ys = (
  λ h x.
      let (none_left, none_right) = exact_split segment_id xs ys h in
      same_answer _ _ (only-zero_all xs ys x none_left) (only-zero_all ys xs x none_right),
  λ same.
      both_zero segment_id xs ys (only_of_all xs ys (λ x h. sym (same x) ∙ h))
        (only_of_all ys xs (λ x h. same x ∙ h)),
)
  where
    same_answer : (a b : Bool) → (a ≡ true → b ≡ true) → (b ≡ true → a ≡ true) → a ≡ b
    same_answer true b f g = sym (f refl)
    same_answer false true f g = g refl
    same_answer false false f g = refl

common : List String → List String → ℕ
common xs ys = length (select (λ id. contains String_discrete ys id) xs)

only-common : (xs ys : List String) → only xs ys + common xs ys ≡ length xs
unfolding only common
only-common [] ys = refl
only-common (x ∷ xs) ys = ground (arith, only-common xs ys)

common-cons :
    (ys xs : List String) (x : String)
    → contains String_discrete xs x ≡ false
    → Distinct String_discrete ys
    → common ys (x ∷ xs) ≡ (if contains String_discrete ys x then 1 else 0) + common ys xs
unfolding common contains
common-cons [] xs x h d = refl
common-cons (y ∷ ys) xs x h d = ground (arith, common-cons ys xs x h d.1)

common_nil : (ys : List String) → common ys [] ≡ 0
unfolding common contains
common_nil [] = refl
common_nil (y ∷ ys) = common_nil ys

common_comm :
    (xs ys : List String)
    → Distinct String_discrete xs
    → Distinct String_discrete ys
    → common xs ys ≡ common ys xs
unfolding common
common_comm [] ys dx dy = sym (common_nil ys)
common_comm (x ∷ xs) ys dx dy =
    ground (arith, common_comm xs ys dx.1 dy, common-cons ys xs x dx.0 dy)

-- The four counts of a comparison fit together: both sides of the equation count the union.
pub diff_sets_balance :
    (segment_id : String) (incremental recompute : List String)
    → Distinct String_discrete incremental
    → Distinct String_discrete recompute
    → let d = diff_sets segment_id incremental recompute in
      d.incremental_size + d.only_recompute ≡ d.recompute_size + d.only_incremental
unfolding diff_sets
diff_sets_balance segment_id xs ys dx dy =
    omega (arith, only-common xs ys, only-common ys xs, common_comm xs ys dx dy)
