-- ===== src/Tunnel/Process/Resources.antt =====
-- What a start of the tunnel takes it gives back.
use tailclip.Base.{
  ◌≡◌, Bool, true, false, not, ◌&&◌, Option, none, some, List, [], ◌∷◌, Bytes, arith, if◌then◌else◌,
  Result, ok, err,
}
use tailclip.Tunnel.{TunnelError}
use tailclip.Tunnel.Process.{
  Answers, Event, made_dir, removed_dir, made_job, closed_job, started, killed, reaped,
  opened_handle, closed_handle, Log, Process, prepare_process, attach_process, await, launch,
  start_binary, close,
}

-- What is held: the temporary directory, the job object, the process, a handle of the process.
pub record Held : Type 0 where
  pub dir : Bool
  pub job : Bool
  pub process : Bool
  pub handle : Bool

abbrev pub nothing : Held
nothing = record { dir = false; job = false; process = false; handle = false }

abbrev pub running : Held
running = record { dir = true; job = true; process = true; handle = false }

-- A thing is taken when it is not held and given back when it is; the process has its directory and
-- its job from its start to its end.
unfoldable pub advance : Held → Event → Option Held
advance h made_dir = if h.dir then none else some (record h { dir = true })
advance h removed_dir = if (h.dir && not h.process) then some (record h { dir = false }) else none
advance h made_job = if h.job then none else some (record h { job = true })
advance h closed_job = if (h.job && not h.process) then some (record h { job = false }) else none
advance h (started _ _) =
    if (h.dir && h.job && not h.process) then some (record h { process = true }) else none
advance h killed = if h.process then some h else none
advance h reaped = if h.process then some (record h { process = false }) else none
advance h opened_handle =
    if (h.process && not h.handle) then some (record h { handle = true }) else none
advance h closed_handle = if h.handle then some (record h { handle = false }) else none

unfoldable pub replay : Held → Log → Option Held
replay h [] = some h
replay h (e ∷ es) = elim (advance h e) [ none ↦ none | some k ↦ replay k es ]

abbrev pub IsBalanced : Result TunnelError Process × Log → Type 0
IsBalanced (err e, log) = replay nothing log ≡ some nothing
IsBalanced (ok p, log) =
    (replay nothing log ≡ some running)
    × (replay running (close p).1 ≡ some nothing)
    × ((close (close p).0).1 ≡ [])

-- Whatever fails: a start that fails holds nothing in the end. One that succeeds holds the running process with its
-- directory and its job, and closing that gives them back; closing it again does nothing.
pub start_binary-IsBalanced :
    (a : Answers) (address : Bytes) (variables : List Bytes)
    → IsBalanced (start_binary a address variables)
unfolding start_binary launch prepare_process attach_process await close replay advance
start_binary-IsBalanced a address variables = ground arith
