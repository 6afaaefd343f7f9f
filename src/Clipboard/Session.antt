-- ===== src/Clipboard/Session.antt =====
-- internal/clipboard/native_session.go: one transaction with the clipboard of the desktop, and the
-- retries of its opening. Times are nanoseconds; time passes while `open` runs and in the waits.
pub mod Retry
pub mod Balance
use tailclip.Base.{
  ℕ, zero, suc, ◌+◌, ◌-◌, ◌*◌, min, Bool, true, false, not, Option, none, some, List, [], ◌∷◌, ◌++◌,
  ltb, leb, if◌then◌else◌, Result, ok, err,
}
use tailclip.Clipboard.{ClipError, busy, is_busy, cleanup_after, cleanup, Context, Done}

abbrev pub millisecond : ℕ
millisecond = 1_000_000

abbrev pub max_open_wait : ℕ
max_open_wait = 1000 * millisecond

abbrev pub first_delay : ℕ
first_delay = 10 * millisecond

abbrev pub longest_delay : ℕ
longest_delay = 160 * millisecond

-- What the desktop answers. `attempt i` is the answer of the i-th call of `open`, which takes
-- `open_time i`; the i-th wait ends early if `interrupted i` gives the context's error, and
-- otherwise lasts `oversleep i` longer than it was set to.
pub record Desktop : Type 0 where
  pub ctx : ℕ → Context
  pub create_owner : Result ClipError ℕ
  pub destroy_owner : ℕ → Done
  pub attempt : ℕ → Done
  pub open_time : ℕ → ℕ
  pub interrupted : ℕ → Context
  pub oversleep : ℕ → ℕ
  pub close : Done

-- How the retries ended, after how many calls of `open`, and when.
pub record Opening : Type 0 where
  pub result : Done
  pub tries : ℕ
  pub finished : ℕ

still_busy : Done → Bool
still_busy (ok _) = false
still_busy (err e) = is_busy e

-- The loop of `retryOpenClipboard`, from round `i` at the time `now`; `none` if the fuel is used up.
unfoldable pub retry : ℕ → Desktop → (deadline i now delay : ℕ) → Option Opening
unfolding still_busy
retry zero d deadline i now delay = none
retry (suc fuel) d deadline i now delay =
    let later = now + d.open_time i in
    let woken = later + min delay (deadline - later) + d.oversleep i in
    let rest = retry fuel d deadline (suc i) woken (min (delay * 2) longest_delay) in
    elim (d.ctx now) [
      | some e ↦ some (record { result = err e; tries = i; finished = now })
      | none ↦
          if not (ltb now deadline)
          then some (record { result = err busy; tries = i; finished = now })
          else if not (still_busy (d.attempt i))
          then some (record { result = d.attempt i; tries = suc i; finished = later })
          else if leb deadline later
          then some (record { result = err busy; tries = suc i; finished = later })
          else elim (d.interrupted i) [
            | some e ↦ some (record { result = err e; tries = suc i; finished = later })
            | none ↦ rest
          ]
    ]

-- Ten calls of `open` are the most that fit into the second; one more round sees that it is over.
abbrev pub rounds : ℕ
rounds = 11

unfoldable pub retry_open_clipboard : Desktop → ℕ → Option Opening
retry_open_clipboard d start = retry rounds d (start + max_open_wait) 0 start first_delay

unfoldable pub session_cleanup_error : Done → Done → Done
session_cleanup_error r (ok _) = r
session_cleanup_error (ok _) (err c) = err (cleanup c)
session_cleanup_error (err o) (err c) = err (cleanup_after o c)

-- The calls that were made on the desktop's resources, in their order.
pub data Event : Type 0 where
  created : ℕ → Event
  opened operated closed : Event
  destroyed : ℕ → Event

abbrev pub Trace : Type 0
Trace = Done × List Event

operate : Context → Done → Trace
operate (some e) operation = (err e, [])
operate none operation = (operation, operated ∷ [])

with_open : Desktop → Done → Opening → Trace
unfolding operate
with_open d operation o = elim o.result [
  | err e ↦ (err e, [])
  | ok _ ↦
      let (r, log) = operate (d.ctx o.finished) operation in
      (session_cleanup_error r d.close, opened ∷ (log ++ closed ∷ []))
]

with_owner : Desktop → ℕ → Trace → Trace
with_owner d owner (r, log) =
    (session_cleanup_error r (d.destroy_owner owner), created owner ∷ (log ++ destroyed owner ∷ []))

-- The whole transaction, whose operation answers `operation`.
unfoldable pub run : Desktop → ℕ → Done → Option Trace
unfolding with_owner with_open session_cleanup_error
run d start operation = elim (d.ctx start) [
  | some e ↦ some (err e, [])
  | none ↦ elim d.create_owner [
    | err e ↦ some (err e, [])
    | ok owner ↦ elim (retry_open_clipboard d start) [
      | none ↦ none
      | some o ↦ some (with_owner d owner (with_open d operation o))
    ]
  ]
]
