-- ===== src/Segment/Incremental/Edits.antt =====
-- What the queued commands of a re-evaluation do to the sets in Redis.
use device_telemetry_gateway.Common.{
  ◌≡◌, ◌≢◌, refl, ◌∙◌, sym, ap, Bool, true, false, if◌then◌else◌, ite, if_pos, if_neg, List, [],
  ◌∷◌, ◌++◌, String, String_discrete, contains, reference, arith,
}
use device_telemetry_gateway.Segment.Redis.{
  Redis, Key, Command, segments_key, member_key, s_add, s_rem, run_all,
}
use device_telemetry_gateway.Segment.Incremental.{edits, lacking, distinct_ids}

-- Keys of different profiles, segments or kinds are different.
abbrev profile_of : Key → String
profile_of (segments_key p) = p
profile_of _ = ""

abbrev segment_of : Key → String
segment_of (member_key id) = id
segment_of _ = ""

abbrev is_member_key : Key → Bool
is_member_key (member_key id) = true
is_member_key _ = false

member_ne : (id p : String) → member_key id ≢ segments_key p
member_ne id p e = ground (arith, ap is_member_key e)

pub segments_ne : (id p : String) → segments_key p ≢ member_key id
segments_ne id p e = ground (arith, ap is_member_key e)

-- The answer after edits: added or removed if among the ids, as before otherwise.
abbrev pub answer : Bool → Bool → Bool → Bool
answer adding edited before = if edited then adding else before

module _ (redis : Redis) where
  abbrev pub in_segments : redis.Store → String → String → Bool
  in_segments s p id = contains String_discrete (redis.s_members s (segments_key p)) id

  abbrev pub in_members : redis.Store → String → String → Bool
  in_members s id p = contains String_discrete (redis.s_members s (member_key id)) p

  -- The two commands for one id, on the set of a profile and on the set of a segment.
  abbrev edit : Bool → Key → String → Command
  edit true k x = s_add k x
  edit false k x = s_rem k x

  abbrev edit_pair : Bool → redis.Store → String → String → redis.Store
  edit_pair adding s p x =
      redis.run (edit adding (member_key x) p) (redis.run (edit adding (segments_key p) x) s)

  s_members-edit :
      (adding : Bool) (s : redis.Store) (k : Key) (x y : String)
      → contains String_discrete (redis.s_members (redis.run (edit adding k x) s) k) y
        ≡ ite (String_discrete y x) adding (contains String_discrete (redis.s_members s k) y)
  s_members-edit true s k x y = redis.s_members-s_add s k x y
  s_members-edit false s k x y = redis.s_members-s_rem s k x y

  edit_elsewhere :
      (adding : Bool) (s : redis.Store) (k j : Key) (x : String)
      → k ≢ j
      → redis.s_members (redis.run (edit adding k x) s) j ≡ redis.s_members s j
  edit_elsewhere true s k j x h = redis.s_members_elsewhere (s_add k x) s j h
  edit_elsewhere false s k j x h = redis.s_members_elsewhere (s_rem k x) s j h

  in_segments-edit_pair :
      (adding : Bool) (s : redis.Store) (p x q id : String)
      → in_segments (edit_pair adding s p x) q id
        ≡ ite
            (String_discrete q p)
            (ite (String_discrete id x) adding (in_segments s q id))
            (in_segments s q id)
  in_segments-edit_pair adding s p x q id =
      ap (λ m. contains String_discrete m id)
        (edit_elsewhere adding (redis.run (edit adding (segments_key p) x) s) (member_key x)
          (segments_key q) p (member_ne x q))
      ∙ elim (String_discrete q p) [
        | yes e ↦ rw (if_pos _ e, e) (s_members-edit adding s (segments_key p) x id)
        | no e ↦ rw (if_neg _ e) (
            ap (λ m. contains String_discrete m id)
              (edit_elsewhere adding s (segments_key p) (segments_key q) x
                (λ k. e (sym (ap profile_of k)))))
      ]

  in_members-edit_pair :
      (adding : Bool) (s : redis.Store) (p x q id : String)
      → in_members (edit_pair adding s p x) id q
        ≡ ite
            (String_discrete q p)
            (ite (String_discrete id x) adding (in_members s id q))
            (in_members s id q)
  in_members-edit_pair adding s p x q id =
      let between = redis.run (edit adding (segments_key p) x) s in
      let untouched : in_members between id q ≡ in_members s id q =
        ap (λ m. contains String_discrete m q)
          (edit_elsewhere adding s (segments_key p) (member_key id) x (segments_ne id p)) in
      elim (String_discrete id x) [
        | yes e ↦ rw (if_pos _ e, ← untouched, e) (s_members-edit adding between (member_key x) p q)
        | no e ↦
            let kept : in_members (edit_pair adding s p x) id q ≡ in_members between id q =
              ap (λ m. contains String_discrete m q)
                (edit_elsewhere adding between (member_key x) (member_key id) p
                  (λ k. e (sym (ap segment_of k)))) in
            rw (if_neg _ e, kept, untouched) (ground arith)
      ]

  pub run_all-append :
      (cs ds : List Command) (s : redis.Store)
      → run_all redis (cs ++ ds) s ≡ run_all redis ds (run_all redis cs s)
  run_all-append [] ds s = refl
  run_all-append (c ∷ cs) ds s = run_all-append cs ds (redis.run c s)

  pub in_segments-edits :
      (adding : Bool) (xs : List String) (s : redis.Store) (p q id : String)
      → in_segments (run_all redis (edits adding p xs) s) q id
        ≡ ite
            (String_discrete q p)
            (answer adding (contains String_discrete xs id) (in_segments s q id))
            (in_segments s q id)
  unfolding contains
  in_segments-edits adding [] s p q id = ground arith
  in_segments-edits true (x ∷ xs) s p q id =
      in_segments-edits true xs (edit_pair true s p x) p q id
      ∙ ground (arith, in_segments-edit_pair true s p x q id)
  in_segments-edits false (x ∷ xs) s p q id =
      in_segments-edits false xs (edit_pair false s p x) p q id
      ∙ ground (arith, in_segments-edit_pair false s p x q id)

  pub in_members-edits :
      (adding : Bool) (xs : List String) (s : redis.Store) (p q id : String)
      → in_members (run_all redis (edits adding p xs) s) id q
        ≡ ite
            (String_discrete q p)
            (answer adding (contains String_discrete xs id) (in_members s id q))
            (in_members s id q)
  unfolding contains
  in_members-edits adding [] s p q id = ground arith
  in_members-edits true (x ∷ xs) s p q id =
      in_members-edits true xs (edit_pair true s p x) p q id
      ∙ ground (arith, in_members-edit_pair true s p x q id)
  in_members-edits false (x ∷ xs) s p q id =
      in_members-edits false xs (edit_pair false s p x) p q id
      ∙ ground (arith, in_members-edit_pair false s p x q id)

pub contains-lacking :
    (xs ys : List String) (id : String)
    → contains String_discrete (lacking xs ys) id
      ≡ (if contains String_discrete ys id then false else contains String_discrete xs id)
unfolding lacking contains
contains-lacking [] ys id = ground arith
contains-lacking (x ∷ xs) ys id = ground (arith, contains-lacking xs ys id)

pub contains-reference :
    (seen xs : List String) (id : String)
    → contains String_discrete (reference String_discrete (λ x. x) seen xs) id
      ≡ (if contains String_discrete seen id then false else contains String_discrete xs id)
unfolding reference contains
contains-reference seen [] id = ground arith
contains-reference seen (x ∷ xs) id =
    ground (arith, contains-reference seen xs id, contains-reference (x ∷ seen) xs id)

pub contains-distinct_ids :
    (ids : List String) (id : String)
    → contains String_discrete (distinct_ids ids) id ≡ contains String_discrete ids id
unfolding distinct_ids contains
contains-distinct_ids ids id = contains-reference [] ids id
