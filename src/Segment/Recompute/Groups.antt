-- ===== src/Segment/Recompute/Groups.antt =====
-- Who is in the answer of a query, by the rows of one profile.
use device_telemetry_gateway.Common.{
  leb, Bool, ◌&&◌, ◌≡◌, refl, ◌∙◌, ap, sym, if_pos, if_neg, List, [], ◌∷◌, map, String,
  String_discrete, contains, select, tally, length, arith,
}
use device_telemetry_gateway.Common.Int.{ℤ}
use device_telemetry_gateway.Segment.Floats.{Floats}
use device_telemetry_gateway.Segment.Definitions.{Segment}
use device_telemetry_gateway.Segment.Incremental.Edits.{contains-reference}
use device_telemetry_gateway.Segment.Recompute.{
  ChRow, same, distinct, wanted, having, group_of, query_profile_ids,
}

contains-select :
    (f : String → Bool) (xs : List String) (x : String)
    → contains String_discrete (select f xs) x ≡ contains String_discrete xs x && f x
unfolding contains
contains-select f [] x = refl
contains-select f (y ∷ ys) x = elim (String_discrete x y) [
  | yes e ↦ ground (arith, contains-select f ys x, ap f e)
  | no e ↦ ground (arith, contains-select f ys x)
]

pub length-select : {A : Type 0} (f : A → Bool) (xs : List A) → length (select f xs) ≡ tally f xs
length-select f [] = refl
length-select f (x ∷ xs) = ground (arith, length-select f xs)

pub contains-profiles :
    (rows : List ChRow) (p : String)
    → contains String_discrete (map (λ (r : ChRow). r.profile_id) rows) p
      ≡ leb 1 (tally (λ (r : ChRow). same r.profile_id p) rows)
unfolding contains
contains-profiles [] p = refl
contains-profiles (r ∷ rs) p = elim (String_discrete p r.profile_id) [
  | yes e ↦ rw (if_pos _ e, if_pos _ (sym e)) (ground arith)
  | no e ↦ rw (if_neg _ e, if_neg _ (λ f. e (sym f))) (ground (arith, contains-profiles rs p))
]

-- WHERE keeps the rows of a profile in order.
select_swap :
    {A : Type 0} (f g : A → Bool) (rows : List A)
    → select g (select f rows) ≡ select f (select g rows)
select_swap f g [] = refl
select_swap f g (r ∷ rs) = ground (arith, select_swap f g rs)

module _ (floats : Floats) (to_float_or_zero : String → floats.Float) where
  -- A profile is in the answer if it has a row that WHERE keeps, and HAVING holds of these rows.
  pub contains-query_profile_ids :
      (log : List ChRow) (seg : Segment floats.Float) (as_of : ℤ) (p : String)
      → let mine = select (wanted floats to_float_or_zero seg.family seg as_of) (group_of p log) in
        contains String_discrete (query_profile_ids floats to_float_or_zero log seg as_of) p
        ≡ leb 1 (length mine) && having floats to_float_or_zero seg.family seg as_of mine
  unfolding query_profile_ids distinct contains
  contains-query_profile_ids log seg as_of p =
      let keep = wanted floats to_float_or_zero seg.family seg as_of in
      let rows = select keep log in
      let mine = λ (r : ChRow). same r.profile_id p in
      let holds = having floats to_float_or_zero seg.family seg as_of in
      let listed =
        contains-reference [] (map (λ (r : ChRow). r.profile_id) rows) p
        ∙ contains-profiles rows p in
      contains-select (λ q. holds (group_of q rows))
        (distinct (map (λ (r : ChRow). r.profile_id) rows)) p
      ∙ rw (listed, ← length-select mine rows, select_swap keep mine log)
