-- ===== src/Common/Sort.antt =====
-- Go's `sort` over a total order: the result is the one ascending arrangement of the elements, which an
-- insertion sort computes too. Instance: the order of texts.
use Prim.Native.Char.{code}
use Prim.Native.String.{String}
use Prim.Native.Nat.{ℕ, ◌+◌, ◌<◌}
use mathlib.Core.Path.{◌≡◌, refl, sym, ap, ap₂}
use mathlib.Core.Logic.{ite, inl, inr}
use mathlib.Core.Bool.{Bool, true, false}
use mathlib.Core.List.{List, [], ◌∷◌}
use native.Mathlib.Omega.{arith}
use native.Mathlib.Decide.{ℕ_discrete}
use text.Mathlib.TextEquality.{Char-path}
use device_telemetry_gateway.Common.Tests.{ltb, leb, if◌then◌else◌, Bool-cases}
use device_telemetry_gateway.Common.Strings.{String_discrete}
use device_telemetry_gateway.Common.Lists.{All, tally, SameItems}

pub record Order (A : Type 0) : Type 0 where
  pub le : A → A → Bool
  pub same : Discrete A
  pub total : (a b : A) → le a b ≡ false → le b a ≡ true
  pub trans : (a b c : A) → le a b ≡ true → le b c ≡ true → le a c ≡ true
  pub antisym : (a b : A) → le a b ≡ true → le b a ≡ true → a ≡ b

module _ {A : Type 0} (o : Order A) where
  place : A → List A → List A
  place x [] = x ∷ []
  place x (y ∷ ys) = if o.le x y then x ∷ y ∷ ys else y ∷ place x ys

  unfoldable pub sort : List A → List A
  unfolding place
  sort [] = []
  sort (x ∷ xs) = place x (sort xs)

  abbrev Below : A → List A → Type 0
  Below x = All (λ y. o.le x y ≡ true)

  abbrev pub IsSorted : List A → Type 0
  IsSorted [] = Unit {0}
  IsSorted (x ∷ xs) = Below x xs × IsSorted xs

  Below-trans : (x y : A) (ys : List A) → o.le x y ≡ true → Below y ys → Below x ys
  Below-trans x y [] h b = tt
  Below-trans x y (z ∷ ys) h b = (o.trans x y z h b.0, Below-trans x y ys h b.1)

  place-Below : (x y : A) (ys : List A) → o.le x y ≡ true → Below x ys → Below x (place y ys)
  unfolding place
  place-Below x y [] h b = (h, tt)
  place-Below x y (z ∷ ys) h b = ground (arith, place-Below x y ys h b.1)

  place-IsSorted : (x : A) (ys : List A) → IsSorted ys → IsSorted (place x ys)
  unfolding place
  place-IsSorted x [] s = (tt, tt)
  place-IsSorted x (y ∷ ys) s =
      ground (arith, place-IsSorted x ys s.1, Below-trans x y ys, place-Below y x ys, o.total x y)

  pub sort-IsSorted : (xs : List A) → IsSorted (sort xs)
  unfolding sort
  sort-IsSorted [] = tt
  sort-IsSorted (x ∷ xs) = place-IsSorted x (sort xs) (sort-IsSorted xs)

  tally-place :
      (p : A → Bool) (x : A) (ys : List A)
      → tally p (place x ys) ≡ (if p x then 1 else 0) + tally p ys
  unfolding place
  tally-place p x [] = refl
  tally-place p x (y ∷ ys) = ground (arith, tally-place p x ys)

  pub sort-SameItems : (xs : List A) → SameItems (sort xs) xs
  unfolding sort
  sort-SameItems [] p = refl
  sort-SameItems (x ∷ xs) p = omega (arith, tally-place p x (sort xs), sort-SameItems xs p)

  place-All : (P : A → Type 0) (x : A) (ys : List A) → P x → All P ys → All P (place x ys)
  unfolding place
  place-All P x [] h a = (h, tt)
  place-All P x (y ∷ ys) h a = elim (Bool-cases (o.le x y)) [
    | inl before ↦ rw before (h, a)
    | inr after ↦ rw after (a.0, place-All P x ys h a.1)
  ]

  pub sort-All : (P : A → Type 0) (xs : List A) → All P xs → All P (sort xs)
  unfolding sort
  sort-All P [] h = tt
  sort-All P (x ∷ xs) h = place-All P x (sort xs) h.0 (sort-All P xs h.1)

  is : A → A → Bool
  is x y = ite (o.same x y) true false

  -- A list that starts with its least element holds nothing less.
  le_of_tally : (x y : A) (ys : List A) → Below y ys → 0 < tally (is x) ys → o.le y x ≡ true
  unfolding is
  le_of_tally x y [] b h = absurd (omega arith)
  le_of_tally x y (z ∷ ys) b h = elim (o.same x z) [
    | yes e ↦ rw e b.0
    | no e ↦ le_of_tally x y ys b.1 (ground arith)
  ]

  le_refl : (x : A) → o.le x x ≡ true
  le_refl x = elim (Bool-cases (o.le x x)) [ inl h ↦ h | inr h ↦ o.total x x h ]

  tally-is : (x : A) (xs : List A) → 0 < tally (is x) (x ∷ xs)
  unfolding is
  tally-is x xs = elim (o.same x x) [ yes e ↦ ground arith | no e ↦ absurd (e refl) ]

  head_le : (x y : A) (xs ys : List A) → Below y ys → SameItems (x ∷ xs) (y ∷ ys) → o.le y x ≡ true
  head_le x y xs ys b same =
      le_of_tally x y (y ∷ ys) (le_refl y, b) (omega (arith, tally-is x xs, same (is x)))

  pub IsSorted-unique : (xs ys : List A) → IsSorted xs → IsSorted ys → SameItems xs ys → xs ≡ ys
  IsSorted-unique [] [] s t same = refl
  IsSorted-unique [] (y ∷ ys) s t same = absurd (omega (arith, same (λ z. true)))
  IsSorted-unique (x ∷ xs) [] s t same = absurd (omega (arith, same (λ z. true)))
  IsSorted-unique (x ∷ xs) (y ∷ ys) s t same =
      let e =
        o.antisym x y (head_le y x ys xs s.0 (λ p. sym (same p))) (head_le x y xs ys t.0 same) in
      ap₂ ◌∷◌ e (IsSorted-unique xs ys s.1 t.1 (λ p. ground (arith, same p, ap p e)))

  -- Two lists sort to the same list exactly if they have the same elements, each as often.
  pub sort_eq : (xs ys : List A) → SameItems xs ys → sort xs ≡ sort ys
  sort_eq xs ys h =
      IsSorted-unique (sort xs) (sort ys) (sort-IsSorted xs) (sort-IsSorted ys)
        (λ p. omega (arith, sort-SameItems xs p, sort-SameItems ys p, h p))

  pub SameItems-sort : (xs ys : List A) → sort xs ≡ sort ys → SameItems xs ys
  SameItems-sort xs ys e p = omega (arith, sort-SameItems xs p, sort-SameItems ys p, ap (tally p) e)

-- Go compares texts bytewise; on UTF-8 that is the order of the code points.
unfoldable pub text_le : String → String → Bool
text_le String.[] t = true
text_le (String.◌∷◌ c s) String.[] = false
text_le (String.◌∷◌ c s) (String.◌∷◌ d t) =
    let rest = text_le s t in
    if ltb (code c) (code d) then true else if ltb (code d) (code c) then false else rest

pub text_le-total : (s t : String) → text_le s t ≡ false → text_le t s ≡ true
unfolding text_le
text_le-total String.[] t h = absurd (ground arith)
text_le-total (String.◌∷◌ c s) String.[] h = refl
text_le-total (String.◌∷◌ c s) (String.◌∷◌ d t) h = ground (arith, text_le-total s t)

pub text_le_trans : (s t u : String) → text_le s t ≡ true → text_le t u ≡ true → text_le s u ≡ true
unfolding text_le
text_le_trans String.[] t u h k = refl
text_le_trans (String.◌∷◌ c s) String.[] u h k = absurd (ground arith)
text_le_trans (String.◌∷◌ c s) (String.◌∷◌ d t) String.[] h k = absurd (ground arith)
text_le_trans (String.◌∷◌ c s) (String.◌∷◌ d t) (String.◌∷◌ e u) h k =
    ground (arith, text_le_trans s t u)

pub text_le-antisym : (s t : String) → text_le s t ≡ true → text_le t s ≡ true → s ≡ t
unfolding text_le
text_le-antisym String.[] String.[] h k = refl
text_le-antisym String.[] (String.◌∷◌ d t) h k = absurd (ground arith)
text_le-antisym (String.◌∷◌ c s) String.[] h k = absurd (ground arith)
text_le-antisym (String.◌∷◌ c s) (String.◌∷◌ d t) h k =
    ap₂ String.◌∷◌ (Char-path c d (ground arith))
      (text_le-antisym s t (ground arith) (ground arith))

abbrev pub text_order : Order String
text_order = record {
  le = text_le;
  same = String_discrete;
  total = text_le-total;
  trans = text_le_trans;
  antisym = text_le-antisym;
}

pub leb-total : (a b : ℕ) → leb a b ≡ false → leb b a ≡ true
leb-total a b h = ground arith

pub leb_trans : (a b c : ℕ) → leb a b ≡ true → leb b c ≡ true → leb a c ≡ true
leb_trans a b c h k = ground arith

pub leb-antisym : (a b : ℕ) → leb a b ≡ true → leb b a ≡ true → a ≡ b
leb-antisym a b h k = ground arith

abbrev pub number_order : Order ℕ
number_order = record {
  le = leb;
  same = ℕ_discrete;
  total = leb-total;
  trans = leb_trans;
  antisym = leb-antisym;
}
