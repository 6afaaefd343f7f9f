-- ===== src/Command/Launch.antt =====
-- cmd/tailblink/main.go: `ensureAgent`, which ends an agent of another version and starts one. Times
-- are nanoseconds; time passes while the agent is asked and in the waits.
pub mod Outcome
use tailclip.Base.{
  ℕ, zero, suc, ◌+◌, ◌-◌, ◌*◌, ◌≤◌, ◌<◌, ◌≡◌, refl, ◌⊎◌, Bool, true, false, not, Option, none, some,
  List, [], ◌∷◌, ◌++◌, Bytes, arith, same, is_some, ltb, if◌then◌else◌, Result, ok, err,
}
use tailclip.Command.{
  CommandError, Done, not_stopped, still_running, no_start, never_healthy, canceled,
}

abbrev pub millisecond : ℕ
millisecond = 1_000_000

-- What the system answers. `version i` is what the i-th call of `localAgentVersion` gives, which takes
-- `takes i`; in the i-th wait, `ended` says whether the context ends, and `oversleep` how much longer
-- than its timer it lasts.
pub record World : Type 0 where
  pub version : ℕ → Option Bytes
  pub takes : ℕ → ℕ
  pub ended : ℕ → Bool
  pub oversleep : ℕ → ℕ
  pub stop : Done
  pub start_detached : Bool

abbrev pub healthy : World → ℕ → Bool
healthy w i = is_some (w.version i)

-- How a loop ended: what it says, how many calls were made up to then, and when.
pub record Ended : Type 0 where
  pub result : Done
  pub calls : ℕ
  pub at : ℕ

-- Waits until the old agent is gone.
unfoldable pub stop_loop : ℕ → World → (deadline i now : ℕ) → Option Ended
stop_loop zero w deadline i now = none
stop_loop (suc fuel) w deadline i now =
    let later = now + w.takes i in
    let rest = stop_loop fuel w deadline (suc i) (later + 100 * millisecond + w.oversleep i) in
    if not (ltb now deadline)
    then some (record { result = ok tt; calls = i; at = now })
    else if not (healthy w i)
    then some (record { result = ok tt; calls = suc i; at = later })
    else if w.ended i
    then some (record { result = err canceled; calls = suc i; at = later })
    else rest

-- Waits until the new agent answers.
unfoldable pub start_loop : ℕ → World → (deadline i now : ℕ) → Option Ended
start_loop zero w deadline i now = none
start_loop (suc fuel) w deadline i now =
    let woken = now + 125 * millisecond + w.oversleep i in
    let rest = start_loop fuel w deadline (suc i) (woken + w.takes i) in
    if not (ltb now deadline)
    then some (record { result = err never_healthy; calls = i; at = now })
    else if w.ended i
    then some (record { result = err canceled; calls = i; at = now })
    else if healthy w i
    then some (record { result = ok tt; calls = suc i; at = woken + w.takes i })
    else rest

-- Fifty waits of 100 ms fill five seconds, and sixty-four of 125 ms fill eight; one more round each
-- sees that the time is over.
abbrev pub stop_rounds : ℕ
stop_rounds = 51

abbrev pub start_rounds : ℕ
start_rounds = 65

-- An agent is started once so many calls of `localAgentVersion` were made.
pub data Action : Type 0 where
  stopped : Action
  started : (calls : ℕ) → Action

abbrev pub Launched : Type 0
Launched = Ended × List Action

abbrev ended_with : Done → ℕ → ℕ → Ended
ended_with r i now = record { result = r; calls = i; at = now }

-- From the start of the program on.
unfoldable pub start_agent : World → (i now : ℕ) → Option Launched
start_agent w i now =
    if not w.start_detached
    then some (ended_with (err no_start) i now, started i ∷ [])
    else elim (start_loop start_rounds w (now + 8000 * millisecond) i now) [
      | none ↦ none
      | some e ↦ some (e, started i ∷ [])
    ]

preceded : Action → Option Launched → Option Launched
preceded a none = none
preceded a (some (e, log)) = some (e, a ∷ log)

-- After the waiting for the old agent: it is asked once more.
unfoldable pub replace_agent : World → Ended → Option Launched
unfolding preceded
replace_agent w e =
    let later = e.at + w.takes e.calls in
    let replaced = preceded stopped (start_agent w (suc e.calls) later) in
    elim e.result [
      | err x ↦ some (e, stopped ∷ [])
      | ok _ ↦
          if healthy w e.calls
          then some (ended_with (err still_running) (suc e.calls) later, stopped ∷ [])
          else replaced
    ]

-- `build` is the version of this program.
unfoldable pub ensure_agent : World → (build : Bytes) → (start : ℕ) → Option Launched
ensure_agent w build start =
    let now = start + w.takes 0 in
    elim (w.version 0) [
      | none ↦ start_agent w 1 now
      | some running ↦
          if same running build then some (ended_with (ok tt) 1 now, []) else elim w.stop [
            | err e ↦ some (ended_with (err (not_stopped e)) 1 now, stopped ∷ [])
            | ok _ ↦ elim (stop_loop stop_rounds w (now + 5000 * millisecond) 1 now) [
              | none ↦ none
              | some e ↦ replace_agent w e
            ]
          ]
    ]
