-- ===== src/Clipboard/Session/Balance.antt =====
-- Each transaction gives back what it took.
use tailclip.Base.{ℕ, ◌≡◌, Option, none, some, List, [], ◌∷◌, arith, ◌==◌, if◌then◌else◌, ok, err}
use tailclip.Clipboard.{ClipError, root, Done}
use tailclip.Clipboard.Session.{
  Desktop, Event, created, opened, operated, closed, destroyed, Trace, run,
}
use tailclip.Clipboard.Session.Retry.{retry_open_clipboard-Ends}

-- What a transaction holds.
pub data Held : Type 0 where
  nothing : Held
  owner_of : ℕ → Held
  clipboard_of : ℕ → Held

-- A resource is taken on top of the one below it, and given back before that one; the operation
-- runs under the open clipboard.
advance : Held → Event → Option Held
advance nothing (created w) = some (owner_of w)
advance (owner_of w) opened = some (clipboard_of w)
advance (clipboard_of w) operated = some (clipboard_of w)
advance (clipboard_of w) closed = some (owner_of w)
advance (owner_of w) (destroyed v) = if w == v then some nothing else none
advance _ _ = none

pub replay : Held → List Event → Option Held
unfolding advance
replay h [] = some h
replay h (e ∷ es) = elim (advance h e) [ none ↦ none | some k ↦ replay k es ]

-- The transaction comes to an end, and its log takes and gives back.
abbrev pub IsBalanced : Option Trace → Type 0
IsBalanced none = ⊥
IsBalanced (some t) = replay nothing t.1 ≡ some nothing

-- Whatever the desktop answers, a transaction comes to an end, and gives back the window and the
-- clipboard that it took, each once and in the reverse order; the operation runs only between them.
pub run-IsBalanced :
    (d : Desktop) (start : ℕ) (operation : Done) → IsBalanced (run d start operation)
unfolding run replay
run-IsBalanced d start operation = ground (arith, retry_open_clipboard-Ends d start)

-- A transaction that reports success did everything: it created its window, opened the clipboard,
-- ran the operation with success, and gave both back without an error.
pub run_ok :
    (d : Desktop) (start : ℕ) (operation : Done) (log : List Event)
    → run d start operation ≡ some (ok tt, log)
    → (operation ≡ ok tt)
      × (d.close ≡ ok tt)
      × ((w : ℕ) × (d.create_owner ≡ ok w)
          × (d.destroy_owner w ≡ ok tt)
          × (log ≡ created w ∷ opened ∷ operated ∷ closed ∷ destroyed w ∷ []))
unfolding run
run_ok d start operation log h = ground arith

-- The report is an error whose chain ends where `e`'s does.
abbrev pub Blames : ClipError → Done → Type 0
Blames e (ok _) = ⊥
Blames e (err x) = root x ≡ root e

-- Once a window was created that then cannot be destroyed, this is the error that is reported,
-- whatever the operation said and whether or not the clipboard could be opened and closed.
pub run-Blames :
    (d : Desktop) (start w : ℕ) (operation : Done) (e : ClipError) (t : Trace)
    → d.ctx start ≡ none
    → d.create_owner ≡ ok w
    → d.destroy_owner w ≡ err e
    → run d start operation ≡ some t
    → Blames e t.0
unfolding run root
run-Blames d start w operation e t c o x h = ground arith
