-- ===== src/Fifo.antt =====
-- The bounded, FIFO-evicting set that internal/ingest, internal/eventingest and
-- internal/deliverystats each implement: a set for membership and a queue of insertion order.
pub mod Newest
pub mod Valid
pub mod Runs
pub mod Again
use device_telemetry_gateway.Common.{
  ℕ, ltb, if◌then◌else◌, Bool, true, false, List, [], ◌∷◌, ◌++◌, contains, remove, length,
}

pub record Fifo (A : Type 0) : Type 0 where
  pub set : List A
  pub order : List A

abbrev pub empty : {A : Type 0} → Fifo A
empty = record { set = []; order = [] }

module _ {A : Type 0} (dec : Discrete A) (cap : ℕ) where
  -- The set and the queue after an insertion: the oldest entry goes if the queue is over `cap`.
  pub evict : List A → List A → Fifo A
  evict set [] = record { set = set; order = [] }
  evict set (oldest ∷ rest) =
      if ltb cap (length (oldest ∷ rest))
      then record { set = remove dec set oldest; order = rest }
      else record { set = set; order = oldest ∷ rest }

  unfoldable pub admit : Fifo A → A → Fifo A × Bool
  unfolding evict
  admit f x =
      if contains dec f.set x then (f, false) else (evict (x ∷ f.set) (f.order ++ (x ∷ [])), true)

  -- A run of calls on the keys of a list: the final set, and the elements that were admitted.
  unfoldable pub admit_all : {R : Type 0} → (R → A) → Fifo A → List R → Fifo A × List R
  admit_all key f [] = (f, [])
  admit_all key f (r ∷ rs) =
      let (g, fresh) = admit f (key r) in
      let (last, out) = admit_all key g rs in (last, if fresh then r ∷ out else out)
