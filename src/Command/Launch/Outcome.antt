-- ===== src/Command/Launch/Outcome.antt =====
-- What a launch of the agent comes to.
use tailclip.Base.{
  ℕ, zero, suc, ◌+◌, ◌-◌, ◌*◌, ◌≤◌, ◌≡◌, ◌⊎◌, inl, inr, true, false, Option, none, some, List, [],
  ◌∷◌, Bytes, arith, Option-cases, ok, err,
}
use tailclip.Command.{CommandError, never_healthy, canceled}
use tailclip.Command.Launch.{
  millisecond, World, healthy, Ended, stop_loop, start_loop, stop_rounds, Action, stopped, started,
  Launched, start_agent, replace_agent, ensure_agent,
}

-- The waiting for the old agent ends after so many calls.
abbrev StopEnds : ℕ → Option Ended → Type 0
StopEnds most none = ⊥
StopEnds most (some e) = (e.calls ≤ most) × (1 ≤ e.calls)

stop_loop-StopEnds :
    (fuel : ℕ) (w : World) (deadline i now : ℕ)
    → 1 ≤ i
    → deadline ≤ now + fuel * (100 * millisecond)
    → StopEnds (i + fuel) (stop_loop (suc fuel) w deadline i now)
unfolding stop_loop
stop_loop-StopEnds zero w deadline i now p h = ground arith
stop_loop-StopEnds (suc fuel) w deadline i now p h =
    let woken : ℕ = now + w.takes i + 100 * millisecond + w.oversleep i in
    ground (arith, stop_loop-StopEnds fuel w deadline (suc i) woken (omega arith) (omega arith))

-- The waiting for the new agent ends, and without an error only after an answer of it.
abbrev StartEnds : World → ℕ → Option Ended → Type 0
StartEnds w most none = ⊥
StartEnds w most (some e) =
    (e.calls ≤ most)
    × (((e.result ≡ ok tt) × (healthy w (e.calls - 1) ≡ true))
        ⊎ (e.result ≡ err never_healthy)
        ⊎ (e.result ≡ err canceled))

start_loop-StartEnds :
    (fuel : ℕ) (w : World) (deadline i now : ℕ)
    → deadline ≤ now + fuel * (125 * millisecond)
    → StartEnds w (i + fuel) (start_loop (suc fuel) w deadline i now)
unfolding start_loop
start_loop-StartEnds zero w deadline i now h = ground arith
start_loop-StartEnds (suc fuel) w deadline i now h =
    let woken : ℕ = now + 125 * millisecond + w.oversleep i + w.takes i in
    ground (arith, start_loop-StartEnds fuel w deadline (suc i) woken (omega arith))

-- Each agent was started when the call before had found none.
abbrev pub Starts : World → List Action → Type 0
Starts w [] = Unit
Starts w (stopped ∷ log) = Starts w log
Starts w (started i ∷ log) = (healthy w (i - 1) ≡ false) × Starts w log

-- Success is said after an answer only.
abbrev pub Fits : World → Ended → Type 0
Fits w e =
    ((e.result ≡ ok tt) × (healthy w (e.calls - 1) ≡ true))
    ⊎ ((x : CommandError) × (e.result ≡ err x))

abbrev pub Ends : World → ℕ → Option Launched → Type 0
Ends w most none = ⊥
Ends w most (some (e, log)) = (e.calls ≤ most) × Starts w log × Fits w e

start_agent-Ends :
    (w : World) (i now : ℕ) → healthy w (i - 1) ≡ false → Ends w (i + 64) (start_agent w i now)
unfolding start_agent
start_agent-Ends w i now h =
    ground (arith, start_loop-StartEnds 64 w (now + 8000 * millisecond) i now (omega arith))

replace_agent-Ends : (w : World) (e : Ended) → e.calls ≤ 51 → Ends w 116 (replace_agent w e)
unfolding replace_agent
replace_agent-Ends w e c =
    let later : ℕ = e.at + w.takes e.calls in ground (arith, start_agent-Ends w (suc e.calls) later)

-- Whatever the running agent answers, and however long it takes, a launch comes to an end after 116
-- questions at the most. An agent is started only if the question before found none, and success is
-- said only if the last question found one.
pub ensure_agent-Ends :
    (w : World) (build : Bytes) (start : ℕ) → Ends w 116 (ensure_agent w build start)
unfolding ensure_agent
ensure_agent-Ends w build start =
    let now : ℕ = start + w.takes 0 in
    let over = stop_loop stop_rounds w (now + 5000 * millisecond) 1 now in
    let fresh = start_agent-Ends w 1 now in
    let waited =
      stop_loop-StopEnds 50 w (now + 5000 * millisecond) 1 now (omega arith) (omega arith) in
    elim (Option-cases over) [
      | inl o ↦ ground (arith, fresh, waited)
      | inr (e, o) ↦ ground (arith, fresh, waited, replace_agent-Ends w e)
    ]
