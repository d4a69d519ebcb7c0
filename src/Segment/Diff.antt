-- ===== src/Segment/Diff.antt =====
-- internal/segment/diff.go: two sets of profiles compared.
pub mod Laws
use device_telemetry_gateway.Common.{
  ℕ, ◌+◌, ◌≡◌, refl, ◌↔◌, Bool, true, false, not, ◌&&◌, ◌==◌, List, [], ◌∷◌, String,
  String_discrete, length, select, contains, Distinct, arith, Bool-cases, inl, inr,
}

-- A `map[string]bool` whose values are all true is the list of its keys.
pub record SegmentDiff : Type 0 where
  pub segment_id : String
  pub incremental_size : ℕ
  pub recompute_size : ℕ
  pub only_incremental : ℕ
  pub only_recompute : ℕ

pub exact : SegmentDiff → Bool
exact d = (d.only_incremental == 0) && (d.only_recompute == 0)

-- How many keys of the first set the second lacks.
pub only : List String → List String → ℕ
only xs ys = length (select (λ id. not (contains String_discrete ys id)) xs)

pub diff_sets : String → List String → List String → SegmentDiff
unfolding only
diff_sets segment_id incremental recompute = record {
  segment_id = segment_id;
  incremental_size = length incremental;
  recompute_size = length recompute;
  only_incremental = only incremental recompute;
  only_recompute = only recompute incremental;
}
