-- ===== src/Command/Service.antt =====
-- cmd/tailblink/main.go: `runAgent`, the life of the agent's process, over what its parts answer. The
-- log has what is started and ended, deferred calls included.
use tailclip.Base.{
  ◌≡◌, Bool, true, false, not, ◌&&◌, Option, none, some, List, [], ◌∷◌, arith, if◌then◌else◌, ok,
  err,
}
use tailclip.Command.{Done}

-- Which of the agent and the desktop's interface ends first, and how each ends.
pub data First : Type 0 where
  agent_ends : (agent : Done) → First
  desktop_ends : (desktop agent : Done) → First

pub record Parts : Type 0 where
  pub config_path : Done
  pub open_store : Done
  pub log_path : Done
  pub open_log : Done
  pub new_agent : Done
  pub start_desktop : Done
  pub first : First

pub data Event : Type 0 where
  log_opened agent_started stop_asked agent_ended desktop_started desktop_closed log_closed : Event

abbrev pub Run : Type 0
Run = Done × List Event

-- The error of the desktop goes before the agent's.
unfoldable pub either_error : (desktop agent : Done) → Done
either_error (err e) agent = err e
either_error (ok _) agent = agent

-- The `select` and the deferred calls behind it.
unfoldable pub wait_for : First → Run
unfolding either_error
wait_for (agent_ends a) = (a, agent_ended ∷ desktop_closed ∷ stop_asked ∷ log_closed ∷ [])
wait_for (desktop_ends d a) =
    (either_error d a, stop_asked ∷ agent_ended ∷ desktop_closed ∷ stop_asked ∷ log_closed ∷ [])

unfoldable pub with_agent : Parts → Run
unfolding wait_for
with_agent p = elim p.start_desktop [
  | err e ↦ (err e, agent_started ∷ stop_asked ∷ agent_ended ∷ stop_asked ∷ log_closed ∷ [])
  | ok _ ↦ let (r, log) = wait_for p.first in (r, agent_started ∷ desktop_started ∷ log)
]

unfoldable pub with_log : Parts → Run
unfolding with_agent
with_log p = elim p.new_agent [
  | err e ↦ (err e, log_opened ∷ log_closed ∷ [])
  | ok _ ↦ let (r, log) = with_agent p in (r, log_opened ∷ log)
]

-- `error` of the steps that come before anything is held.
unfoldable pub first_of : List Done → Done
first_of [] = ok tt
first_of (err e ∷ ds) = err e
first_of (ok _ ∷ ds) = first_of ds

unfoldable pub run_agent : Parts → Run
unfolding first_of with_log
run_agent p = elim (first_of (p.config_path ∷ p.open_store ∷ p.log_path ∷ p.open_log ∷ [])) [
  | err e ↦ (err e, [])
  | ok _ ↦ with_log p
]

-- What runs and what is open.
pub record Live : Type 0 where
  pub log : Bool
  pub agent : Bool
  pub desktop : Bool

abbrev pub nothing : Live
nothing = record { log = false; agent = false; desktop = false }

-- The agent and the desktop's interface run under the open log, and end once; the agent ends by
-- itself or once it is asked to.
unfoldable pub advance : Live → Event → Option Live
advance l log_opened = if l.log then none else some (record l { log = true })
advance l agent_started = if (l.log && not l.agent) then some (record l { agent = true }) else none
advance l stop_asked = some l
advance l agent_ended = if l.agent then some (record l { agent = false }) else none
advance l desktop_started =
    if (l.agent && not l.desktop) then some (record l { desktop = true }) else none
advance l desktop_closed = if l.desktop then some (record l { desktop = false }) else none
advance l log_closed =
    if (l.log && not l.agent && not l.desktop) then some (record l { log = false }) else none

unfoldable pub replay : Live → List Event → Option Live
replay l [] = some l
replay l (e ∷ es) = elim (advance l e) [ none ↦ none | some k ↦ replay k es ]

-- However the parts answer, and whichever of the agent and the desktop's interface ends first: the
-- log is closed once, after the agent and the interface have ended, and nothing is left running.
pub replay-run_agent : (p : Parts) → replay nothing (run_agent p).1 ≡ some nothing
unfolding run_agent replay advance
replay-run_agent p = ground arith
