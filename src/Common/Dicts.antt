-- ===== src/Common/Dicts.antt =====
-- Go's `map[K]V` as an association list: a read, a write, and what a write changes.
use mathlib.Core.Path.{◌≡◌, refl, subst}
use mathlib.Core.Logic.{ite, ◌≢◌, if_pos, if_neg}
use mathlib.Core.List.{List, [], ◌∷◌}
use mathlib.Core.Option.{Option, none, some}
use native.Mathlib.Omega.{arith}
use device_telemetry_gateway.Common.Lists.{All}

module _ {K V : Type 0} (dec : Discrete K) where
  unfoldable pub lookup : K → List (K × V) → Option V
  lookup k [] = none
  lookup k ((j, v) ∷ m) = ite (dec k j) (some v) (lookup k m)

  -- `m[k] = v`: in place for a key that is there, a new entry otherwise.
  unfoldable pub insert : K → V → List (K × V) → List (K × V)
  insert k v [] = (k, v) ∷ []
  insert k v ((j, w) ∷ m) = ite (dec k j) ((k, v) ∷ m) ((j, w) ∷ insert k v m)

  pub lookup-insert :
      (k j : K) (v : V) (m : List (K × V))
      → lookup j (insert k v m) ≡ ite (dec j k) (some v) (lookup j m)
  unfolding lookup insert
  lookup-insert k j v [] = refl
  lookup-insert k j v ((i, w) ∷ m) = ground (arith, lookup-insert k j v m)

  pub lookup-insert_self : (k : K) (v : V) (m : List (K × V)) → lookup k (insert k v m) ≡ some v
  lookup-insert_self k v m = ground (arith, lookup-insert k k v m)

  pub lookup-insert_ne :
      (k j : K) (v : V) (m : List (K × V)) → j ≢ k → lookup j (insert k v m) ≡ lookup j m
  lookup-insert_ne k j v m h = ground (arith, lookup-insert k j v m)

  pub All-lookup :
      (P : V → Type 0) (k : K) {v : V} (m : List (K × V))
      → All (λ e. P e.1) m
      → lookup k m ≡ some v
      → P v
  unfolding lookup
  All-lookup P k [] h e = cc
  All-lookup P k {v} ((j, w) ∷ m) h e = elim (dec k j) [
    | yes p ↦ let same : w ≡ v = ground arith in subst P same h.0
    | no p ↦ All-lookup P k m h.1 (ground arith)
  ]

  pub insert-All :
      (P : V → Type 0) (k : K) (v : V) (m : List (K × V))
      → P v
      → All (λ e. P e.1) m
      → All (λ e. P e.1) (insert k v m)
  unfolding insert
  insert-All P k v [] h a = (h, tt)
  insert-All P k v ((j, w) ∷ m) h a = elim (dec k j) [
    | yes p ↦ rw (if_pos _ p) (h, a.1)
    | no p ↦ rw (if_neg _ p) (a.0, insert-All P k v m h a.1)
  ]
