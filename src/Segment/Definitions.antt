-- ===== src/Segment/Definitions.antt =====
-- internal/segment/definitions.go: the segments as data.
use Prim.Native.String.{◌++◌ as join}
use device_telemetry_gateway.Common.{ℕ, List, [], ◌∷◌, ◌++◌, map, String}
use device_telemetry_gateway.Common.Decimal.{decimal}
use device_telemetry_gateway.Segment.Floats.{Floats}

pub data Family : Type 0 where
  purchase_count_min : Family
  cart_abandon_days : Family
  category_view_min : Family
  purchase_value_min : Family
  recently_active_hours : Family
  never_purchased : Family
  churn_risk_days : Family
  multi_category_min : Family

pub record Segment (Float : Type 0) : Type 0 where
  pub id : String
  pub family : Family
  pub min_count : ℕ
  pub window_days : ℕ
  pub category : String
  pub min_value : Float
  pub min_hours : ℕ
  pub min_days : ℕ
  pub min_distinct : ℕ

abbrev pub categories : List String
categories =
    "electronics" ∷ "apparel" ∷ "home" ∷ "beauty" ∷ "sports" ∷ "books" ∷ "toys" ∷ "grocery" ∷ []

flat_map {ℓ κ} : {A : Type ℓ} {B : Type κ} → List A → (A → List B) → List B
flat_map [] f = []
flat_map (x ∷ xs) f = f x ++ flat_map xs f

module _ (floats : Floats) where
  -- Go's zero value.
  abbrev blank : Segment floats.Float
  blank = record {
    id = "";
    family = never_purchased;
    min_count = 0;
    window_days = 0;
    category = "";
    min_value = floats.of_ℕ 0;
    min_hours = 0;
    min_days = 0;
    min_distinct = 0;
  }

  count_segment : ℕ → ℕ → Segment floats.Float
  unfolding decimal
  count_segment n w = record blank {
    id = join "purchase_count_min_" (join (decimal n) (join "_" (join (decimal w) "d")));
    family = purchase_count_min;
    min_count = n;
    window_days = w;
  }

  cart_segment : ℕ → Segment floats.Float
  unfolding decimal
  cart_segment d = record blank {
    id = join "cart_abandon_" (join (decimal d) "d");
    family = cart_abandon_days;
    min_days = d;
  }

  view_segment : String → ℕ → Segment floats.Float
  unfolding decimal
  view_segment c n = record blank {
    id = join "category_view_min_" (join c (join "_" (decimal n)));
    family = category_view_min;
    category = c;
    min_count = n;
  }

  -- The three thresholds are whole numbers, which `%.0f` prints as `%d` does.
  value_segment : ℕ → ℕ → Segment floats.Float
  unfolding decimal
  value_segment t w = record blank {
    id = join "purchase_value_min_" (join (decimal t) (join "_" (join (decimal w) "d")));
    family = purchase_value_min;
    min_value = floats.of_ℕ t;
    window_days = w;
  }

  active_segment : ℕ → Segment floats.Float
  unfolding decimal
  active_segment h = record blank {
    id = join "recently_active_" (join (decimal h) "h");
    family = recently_active_hours;
    min_hours = h;
  }

  churn_segment : ℕ → Segment floats.Float
  unfolding decimal
  churn_segment d = record blank {
    id = join "churn_risk_" (join (decimal d) "d");
    family = churn_risk_days;
    min_days = d;
  }

  multi_segment : ℕ → Segment floats.Float
  unfolding decimal
  multi_segment k = record blank {
    id = join "multi_category_shopper_min_" (decimal k);
    family = multi_category_min;
    min_distinct = k;
  }

  unfoldable pub generate_test_segments : List (Segment floats.Float)
  unfolding flat_map count_segment cart_segment view_segment value_segment active_segment
      churn_segment multi_segment
  generate_test_segments =
      flat_map (1 ∷ 2 ∷ 3 ∷ 5 ∷ []) (λ n. map (count_segment n) (7 ∷ 30 ∷ 90 ∷ []))
      ++ map cart_segment (1 ∷ 3 ∷ 7 ∷ 14 ∷ 30 ∷ [])
      ++ flat_map categories (λ c. map (view_segment c) (3 ∷ 5 ∷ []))
      ++ flat_map (100 ∷ 250 ∷ 500 ∷ []) (λ t. map (value_segment t) (30 ∷ 90 ∷ []))
      ++ map active_segment (1 ∷ 6 ∷ 24 ∷ 72 ∷ [])
      ++ (record blank { id = "never_purchased"; family = never_purchased } ∷ [])
      ++ map churn_segment (14 ∷ 30 ∷ 60 ∷ [])
      ++ map multi_segment (2 ∷ 3 ∷ 4 ∷ [])
