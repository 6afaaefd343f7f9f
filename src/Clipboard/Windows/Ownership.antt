-- ===== src/Clipboard/Windows/Ownership.antt =====
-- What a write does to its block of memory and to what the clipboard held.
use tailclip.Base.{
  ℕ, suc, ◌+◌, ◌≤◌, ◌≡◌, refl, ◌⊎◌, true, Option, none, some, List, [], ◌∷◌, ap, subst, Bytes,
  arith, ok, err,
}
use tailclip.Clipboard.{Done}
use tailclip.Clipboard.Session.{run, Event, Trace}
use tailclip.Clipboard.Session.Balance.{run-IsBalanced, run_ok}
use tailclip.Clipboard.Windows.{
  Win32, Step, allocated, stored, freed, Written, write_text, after_session, replace_units, ran,
  windows_clipboard_session, nul_terminated,
}

-- How often a block was allocated, given to the system, and freed.
unfoldable pub allocations : List Step → ℕ
allocations [] = 0
allocations (allocated ∷ s) = suc (allocations s)
allocations (_ ∷ s) = allocations s

unfoldable pub given_away : List Step → ℕ
given_away [] = 0
given_away (stored ∷ s) = suc (given_away s)
given_away (_ ∷ s) = given_away s

unfoldable pub releases : List Step → ℕ
releases [] = 0
releases (freed ∷ s) = suc (releases s)
releases (_ ∷ s) = releases s

abbrev pub IsAccounted : Option Written → Type 0
IsAccounted none = ⊥
IsAccounted (some r) =
    (allocations r.steps ≡ given_away r.steps + releases r.steps) × (allocations r.steps ≤ 1)

-- Whatever the system answers, a write comes to an end, and the block of memory that it allocates is
-- either given to the system or freed, not both, and once; it allocates one block at most.
pub write_text-IsAccounted :
    (w : Win32) (start : ℕ) (text : Bytes) (before : Option (List ℕ))
    → IsAccounted (write_text w start text before)
unfolding write_text replace_units allocations given_away releases
write_text-IsAccounted w start text before = ground (
  arith,
  run-IsBalanced (windows_clipboard_session w) start
      (replace_units w before (nul_terminated text)).result,
)

-- A transaction that reports success ran its operation, with success.
pub run-ran :
    (w : Win32) (start : ℕ) (operation : Done) (log : List Event)
    → run (windows_clipboard_session w) start operation ≡ some (ok tt, log)
    → (operation ≡ ok tt) × (ran log ≡ true)
unfolding ran
run-ran w start operation log h =
    let (o, c, made) = run_ok (windows_clipboard_session w) start operation log h in
    (o, ap ran made.3)

replace_units_ok :
    (w : Win32) (before : Option (List ℕ)) (units : List ℕ)
    → (replace_units w before units).result ≡ ok tt
    → (replace_units w before units).clipboard ≡ some units
unfolding replace_units
replace_units_ok w before units h = ground arith

after_session_ok :
    (w : Win32) (start : ℕ) (before : Option (List ℕ)) (units : List ℕ) (t : Trace)
    → run (windows_clipboard_session w) start (replace_units w before units).result ≡ some t
    → (after_session before units (replace_units w before units) t).result ≡ ok tt
    → (after_session before units (replace_units w before units) t).clipboard ≡ some units
unfolding after_session
after_session_ok w start before units (err x, log) e h = cc
after_session_ok w start before units (ok _, log) e h =
    let o = replace_units w before units in
    let (p, q) = run-ran w start o.result log e in rw q (replace_units_ok w before units p)

Stored : List ℕ → Option Written → Type 0
Stored units none = Unit {0}
Stored units (some r) = r.result ≡ ok tt → r.clipboard ≡ some units

write_text-Stored :
    (w : Win32) (start : ℕ) (text : Bytes) (before : Option (List ℕ))
    → Stored (nul_terminated text) (write_text w start text before)
unfolding Stored write_text
write_text-Stored w start text before =
    let units = nul_terminated text in
    let o = replace_units w before units in
    by_run (run (windows_clipboard_session w) start o.result) refl
  where
    by_run :
        (t : Option Trace)
        → run
            (windows_clipboard_session w)
            start
            (replace_units w before (nul_terminated text)).result
          ≡ t
        → Stored (nul_terminated text) (write_text w start text before)
    by_run none e = ground arith
    by_run (some t) e = ground (arith, after_session_ok w start before (nul_terminated text) t e)

-- A write that reports success has left the text in the clipboard, with a NUL behind it.
pub write_text_ok :
    (w : Win32) (start : ℕ) (text : Bytes) (before : Option (List ℕ)) (r : Written)
    → write_text w start text before ≡ some r
    → r.result ≡ ok tt
    → r.clipboard ≡ some (nul_terminated text)
unfolding Stored
write_text_ok w start text before r h =
    subst (Stored (nul_terminated text)) h (write_text-Stored w start text before)

abbrev pub Leaves : Option (List ℕ) → List ℕ → Option Written → Type 0
Leaves before units none = ⊥
Leaves before units (some r) =
    (r.clipboard ≡ before)
    ⊎ ((r.clipboard ≡ none) × (given_away r.steps ≡ 0))
    ⊎ ((r.clipboard ≡ some units) × (given_away r.steps ≡ 1))

-- Whatever the system answers, a write leaves the clipboard as it was, or empty with the text not
-- taken, or with the text, which the system has then taken.
pub write_text-Leaves :
    (w : Win32) (start : ℕ) (text : Bytes) (before : Option (List ℕ))
    → Leaves before (nul_terminated text) (write_text w start text before)
unfolding write_text replace_units given_away
write_text-Leaves w start text before = ground (
  arith,
  run-IsBalanced (windows_clipboard_session w) start
      (replace_units w before (nul_terminated text)).result,
)
