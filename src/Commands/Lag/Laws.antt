-- ===== src/Commands/Lag/Laws.antt =====
-- What a reported lag means.
use device_telemetry_gateway.Common.{
  ℕ, ◌≡◌, ◌≢◌, ◌↔◌, ◌⊎◌, inl, inr, refl, ap, ◌==◌, List, [], ◌∷◌, All, Bool-cases, arith,
}
use device_telemetry_gateway.Common.Int.{ℤ, pos, negsuc, ◌≤ℤ◌, ◌-ℤ◌, pos_part}
use device_telemetry_gateway.Commands.Lag.{
  offset_of, lag_of, Poll, failed, answered, drain_loop, final_lag,
}

-- Every partition of the broker is read to its end.
abbrev pub CaughtUp : List (ℕ × ℤ) → List ℤ → Type 0
CaughtUp ends cur = All (λ e. e.1 ≤ℤ offset_of cur e.0) ends

no_excess : (a b : ℤ) → (pos_part (a -ℤ b) ≡ 0) ↔ (a ≤ℤ b)
unfolding ◌-ℤ◌
no_excess a b = ground arith

lag-CaughtUp : (ends : List (ℕ × ℤ)) (cur : List ℤ) → (lag_of ends cur ≡ 0) ↔ CaughtUp ends cur
unfolding lag_of
lag-CaughtUp [] cur = (λ e. tt, λ c. refl)
lag-CaughtUp ((pid, last) ∷ ends) cur =
    let one = no_excess last (offset_of cur pid) in
    let others = lag-CaughtUp ends cur in
    (
      λ e. (one.0 (omega arith), others.0 (omega arith)),
      λ c. omega (arith, one.1 c.0, others.1 c.1),
    )

-- Some round found every partition read to its end.
abbrev pub CaughtUpOnce : List Poll → Type 0
CaughtUpOnce [] = ⊥
CaughtUpOnce (failed ∷ polls) = CaughtUpOnce polls
CaughtUpOnce (answered ends cur ∷ polls) = CaughtUp ends cur ⊎ CaughtUpOnce polls

-- No round got an answer.
abbrev pub AllFailed : List Poll → Type 0
AllFailed [] = Unit
AllFailed (failed ∷ polls) = AllFailed polls
AllFailed (answered ends cur ∷ polls) = ⊥

drain_loop_zero :
    (final : ℤ) (polls : List Poll)
    → final ≢ pos 0
    → (drain_loop final polls ≡ pos 0) ↔ CaughtUpOnce polls
unfolding drain_loop
drain_loop_zero final [] h = (λ e. absurd (h e), λ c. absurd c)
drain_loop_zero final (failed ∷ polls) h = drain_loop_zero final polls h
drain_loop_zero final (answered ends cur ∷ polls) h = elim (Bool-cases (lag_of ends cur == 0)) [
  | inl done ↦
      let zero_lag : lag_of ends cur ≡ 0 = ground arith in
      rw done (λ e. inl ((lag-CaughtUp ends cur).0 zero_lag), λ c. ap pos zero_lag)
  | inr more ↦
      let some_lag : lag_of ends cur ≢ 0 = λ e. ground arith in
      let rest = drain_loop_zero (pos (lag_of ends cur)) polls (λ e. some_lag (ap pos_part e)) in
      rw more (
        λ e. inr (rest.0 e),
        λ c. elim c [
          | inl now ↦ absurd (some_lag ((lag-CaughtUp ends cur).1 now))
          | inr later ↦ rest.1 later
        ],
      )
]

drain_loop_known : (n : ℕ) (polls : List Poll) → drain_loop (pos n) polls ≢ negsuc 0
unfolding drain_loop
drain_loop_known n [] = λ e. cc
drain_loop_known n (failed ∷ polls) = drain_loop_known n polls
drain_loop_known n (answered ends cur ∷ polls) = elim (Bool-cases (lag_of ends cur == 0)) [
  | inl done ↦ rw done (λ e. cc)
  | inr more ↦ rw more (drain_loop_known (lag_of ends cur) polls)
]

drain_loop_unknown :
    (polls : List Poll) → (drain_loop (negsuc 0) polls ≡ negsuc 0) ↔ AllFailed polls
unfolding drain_loop
drain_loop_unknown [] = (λ e. tt, λ c. refl)
drain_loop_unknown (failed ∷ polls) = drain_loop_unknown polls
drain_loop_unknown (answered ends cur ∷ polls) = elim (Bool-cases (lag_of ends cur == 0)) [
  | inl done ↦ rw done (λ e. cc, λ c. absurd c)
  | inr more ↦ rw more (λ e. drain_loop_known (lag_of ends cur) polls e, λ c. absurd c)
]

-- The loop that waits for the backlog reports a lag of zero exactly if some round before the deadline found
-- every partition read to its end by the reader's own offsets, and a lag of -1 exactly if no round got an
-- answer from the broker.
pub final_lag_meaning :
    (polls : List Poll)
    → ((final_lag polls ≡ pos 0) ↔ CaughtUpOnce polls)
      × ((final_lag polls ≡ negsuc 0) ↔ AllFailed polls)
unfolding final_lag
final_lag_meaning polls = (drain_loop_zero (negsuc 0) polls (λ e. cc), drain_loop_unknown polls)
