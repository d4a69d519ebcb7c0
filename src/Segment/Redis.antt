-- ===== src/Segment/Redis.antt =====
-- Redis, which internal/segment uses as its store: the commands of a pipeline, and the documented
-- behaviour of the commands that the membership of segments rests on.
use device_telemetry_gateway.Common.{
  ℕ, ◌≡◌, ◌≢◌, Bool, true, false, ite, List, [], ◌∷◌, Option, none, some, String, String_discrete,
  contains, take,
}
use device_telemetry_gateway.Common.Int.{ℤ}

-- The keys of incremental.go. As strings they are a fixed word, or one of five prefixes, each ended by
-- its only colon, and the id: no two are the same.
pub data Key : Type 0 where
  touched_profiles : Key
  stats_key : String → Key
  catviews_key : String → Key
  purch_key : String → Key
  segments_key : String → Key
  member_key : String → Key

pub data Command : Type 0 where
  s_add : Key → String → Command
  s_rem : Key → String → Command
  h_incr_by : Key → String → ℕ → Command
  h_set : Key → String → ℤ → Command
  z_add : Key → ℤ → String → Command
  -- Everything with a score up to the given one.
  z_rem_range_by_score : Key → ℤ → Command

abbrev pub key_of : Command → Key
key_of (s_add k x) = k
key_of (s_rem k x) = k
key_of (h_incr_by k field n) = k
key_of (h_set k field v) = k
key_of (z_add k score x) = k
key_of (z_rem_range_by_score k high) = k

pub record Redis : Type 1 where
  pub Store : Type 0
  pub run : Command → Store → Store
  pub s_members : Store → Key → List String
  pub h_get_all : Store → Key → List (String × String)
  -- The members with a score between two bounds, both included: how many, and which.
  pub z_count : Store → Key → ℤ → ℤ → ℕ
  pub z_range_by_score : Store → Key → ℤ → ℤ → List String
  pub s_members-s_add :
      (s : Store) (k : Key) (x y : String)
      → contains String_discrete (s_members (run (s_add k x) s) k) y
        ≡ ite (String_discrete y x) true (contains String_discrete (s_members s k) y)
  pub s_members-s_rem :
      (s : Store) (k : Key) (x y : String)
      → contains String_discrete (s_members (run (s_rem k x) s) k) y
        ≡ ite (String_discrete y x) false (contains String_discrete (s_members s k) y)
  -- A command changes what is stored under its own key only.
  pub s_members_elsewhere :
      (c : Command) (s : Store) (k : Key) → key_of c ≢ k → s_members (run c s) k ≡ s_members s k
  pub h_get_all_elsewhere :
      (c : Command) (s : Store) (k : Key) → key_of c ≢ k → h_get_all (run c s) k ≡ h_get_all s k
  pub z_count_elsewhere :
      (c : Command) (s : Store) (k : Key) (low high : ℤ)
      → key_of c ≢ k
      → z_count (run c s) k low high ≡ z_count s k low high
  pub z_range_elsewhere :
      (c : Command) (s : Store) (k : Key) (low high : ℤ)
      → key_of c ≢ k
      → z_range_by_score (run c s) k low high ≡ z_range_by_score s k low high

-- What becomes of the `Exec` of a pipeline: `some n` is a connection that breaks after the server has
-- run `n` of its commands.
abbrev pub ExecFault : Type 0
ExecFault = Option ℕ

module _ (redis : Redis) where
  abbrev pub run_all : List Command → redis.Store → redis.Store
  run_all [] s = s
  run_all (c ∷ cs) s = run_all cs (redis.run c s)

  unfoldable pub exec : List Command → ExecFault → redis.Store → redis.Store × Bool
  exec cs none s = (run_all cs s, true)
  exec cs (some n) s = (run_all (take n cs) s, false)
