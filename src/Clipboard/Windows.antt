-- ===== src/Clipboard/Windows.antt =====
-- internal/clipboard/backend_windows.go: the clipboard of Windows, over what its calls answer. The
-- clipboard holds the 16-bit units that were stored in it last, or nothing.
pub mod Ownership
pub mod Reading
use tailclip.Base.{
  ℕ, ◌+◌, ◌/◌, Bool, true, false, not, ◌&&◌, ◌||◌, Option, none, some, List, [], ◌∷◌, ◌++◌, Bytes,
  is_empty, take, ltb, ◌==◌, if◌then◌else◌, Result, ok, err,
}
use tailclip.Clipboard.{ClipError, busy, no_text, system, Context, Done}
use tailclip.Clipboard.Session.{Desktop, Event, operated, Trace, run}
use tailclip.Clipboard.Utf16.{runes, string_of, encode, decode, before_nul}

-- What a call returns, and the last error.
abbrev pub Call : Type 0
Call = ℕ × ℕ

abbrev pub error_access_denied : ℕ
error_access_denied = 5

-- An error made by `normalizeCallError` wraps none of the package's, whatever its number.
abbrev pub failing : Call → Bool
failing (value, last) = value == 0

abbrev pub done_by : Call → Done
done_by c = if failing c then err system else ok tt

-- What the system answers to the calls of one operation. The functions of time and of the number of
-- the attempt are those of `Desktop`; `memory` is what the block that is read holds, in units.
pub record Win32 : Type 0 where
  pub ctx : ℕ → Context
  pub create_window : Call
  pub destroy_window : ℕ → Call
  pub open_clipboard : ℕ → Call
  pub open_time : ℕ → ℕ
  pub interrupted : ℕ → Context
  pub oversleep : ℕ → ℕ
  pub close_clipboard : Call
  pub global_alloc : Call
  pub global_lock : Call
  pub empty_clipboard : Call
  pub set_clipboard_data : Call
  pub is_format_available : Call
  pub get_clipboard_data : Call
  pub global_size : Call
  pub memory : List ℕ

unfoldable pub create_clipboard_owner : Call → Result ClipError ℕ
create_clipboard_owner c = if failing c then err system else ok c.0

unfoldable pub open_error : Call → Done
open_error c =
    if not (failing c) then ok tt else if c.1 == error_access_denied then err busy else err system

unfoldable pub windows_clipboard_session : Win32 → Desktop
windows_clipboard_session w = record {
  ctx = w.ctx;
  create_owner = create_clipboard_owner w.create_window;
  destroy_owner = λ owner. done_by (w.destroy_window owner);
  attempt = λ i. open_error (w.open_clipboard i);
  open_time = w.open_time;
  interrupted = w.interrupted;
  oversleep = w.oversleep;
  close = done_by w.close_clipboard;
}

-- Whether the transaction got as far as its operation.
unfoldable pub ran : List Event → Bool
ran [] = false
ran (operated ∷ es) = true
ran (e ∷ es) = ran es

unfoldable pub available : Win32 → ℕ → Option Done
available w start = elim (run (windows_clipboard_session w) start (ok tt)) [
  | none ↦ none
  | some t ↦ some t.0
]

-- What is read under the open clipboard.
unfoldable pub read_units : Win32 → Result ClipError (List ℕ)
read_units w =
    if failing w.is_format_available
    then err no_text
    else if failing w.get_clipboard_data
    then err system
    else if failing w.global_size
    then err system
    else if ltb w.global_size.0 2
    then err no_text
    else if failing w.global_lock
    then err system
    else ok (take (w.global_size.0 / 2) w.memory)

abbrev pub outcome : Result ClipError (List ℕ) → Done
outcome (ok us) = ok tt
outcome (err e) = err e

abbrev pub copied : Result ClipError (List ℕ) → List ℕ
copied (ok us) = us
copied (err e) = []

unfoldable pub text_of_units : List ℕ → Result ClipError Bytes
text_of_units us =
    let text = before_nul us in if is_empty text then err no_text else ok (string_of (decode text))

unfoldable pub read_answer : Win32 → Trace → Result ClipError Bytes
read_answer w (err e, log) = err e
read_answer w (ok _, log) = text_of_units (if ran log then copied (read_units w) else [])

unfoldable pub read_text : Win32 → ℕ → Option (Result ClipError Bytes)
unfolding read_answer
read_text w start = elim (run (windows_clipboard_session w) start (outcome (read_units w))) [
  | none ↦ none
  | some t ↦ some (read_answer w t)
]

-- What happens to the block of memory and to the clipboard in a write.
pub data Step : Type 0 where
  allocated locked unlocked emptied stored freed : Step
  filled : List ℕ → Step

pub record Written : Type 0 where
  pub result : Done
  pub clipboard : Option (List ℕ)
  pub steps : List Step

-- The operation under the open clipboard.
unfoldable pub replace_units : Win32 → Option (List ℕ) → List ℕ → Written
replace_units w before units =
    if failing w.empty_clipboard
    then record { result = err system; clipboard = before; steps = [] }
    else if failing w.set_clipboard_data
    then record { result = err system; clipboard = none; steps = emptied ∷ [] }
    else record { result = ok tt; clipboard = some units; steps = emptied ∷ stored ∷ [] }

is_ok : Done → Bool
is_ok (ok _) = true
is_ok (err e) = false

abbrev pub nul_terminated : Bytes → List ℕ
nul_terminated text = encode (runes text) ++ 0 ∷ []

-- The deferred call frees the block unless the system has taken it.
unfoldable pub after_session : Option (List ℕ) → List ℕ → Written → Trace → Written
unfolding is_ok
after_session before units o (r, log) = record {
  result = r;
  clipboard = if ran log then o.clipboard else before;
  steps =
      allocated
      ∷ locked
      ∷ filled units
      ∷ unlocked
      ∷ ((if ran log then o.steps else [])
          ++ (if (ran log && is_ok o.result) then [] else freed ∷ []));
}

unfoldable pub write_text : Win32 → ℕ → Bytes → Option (List ℕ) → Option Written
unfolding after_session
write_text w start text before =
    let units = nul_terminated text in
    let o = replace_units w before units in
    elim (w.ctx start) [
      | some e ↦ some (record { result = err e; clipboard = before; steps = [] })
      | none ↦
          if failing w.global_alloc
          then some (record { result = err system; clipboard = before; steps = [] })
          else if failing w.global_lock
          then some
              (record { result = err system; clipboard = before; steps = allocated ∷ freed ∷ [] })
          else elim (run (windows_clipboard_session w) start o.result) [
            | none ↦ none
            | some t ↦ some (after_session before units o t)
          ]
    ]
