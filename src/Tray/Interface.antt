-- ===== src/Tray/Interface.antt =====
-- cmd/tailblink/tray_windows.go and desktop.go: `startDesktopUI`, which runs the tray beside the agent, and
-- `desktopUI`, by which `runAgent` learns of its end and closes it. Times are nanoseconds.
use tailclip.Base.{
  ℕ, ◌≤◌, ◌*◌, Bool, true, false, not, Option, none, some, arith, min, if◌then◌else◌,
}
use tailclip.Tray.{Tray, request_close}

-- The result of the tray's loop comes through `done`; the other builds have neither.
pub record DesktopUi : Type 0 where
  pub done : Option Bool
  pub has_close : Bool

abbrev pub no_desktop : DesktopUi
no_desktop = record { done = none; has_close = false }

-- A tray that did not get ready is an error, and gives no interface. `result` is how the loop ends.
unfoldable pub start_desktop_ui : (result : Bool) → Bool × Tray → Option DesktopUi × Tray
start_desktop_ui result (false, t) = (none, t)
start_desktop_ui result (true, t) = (some (record { done = some result; has_close = true }), t)

abbrev pub close_limit : ℕ
close_limit = 2 * 1_000_000_000

-- `desktopUI.Close`: the window is asked to close, and the call waits until the loop is over, which
-- takes `ending` if it comes to an end, but two seconds at most.
unfoldable pub close_ui : DesktopUi → (ending : Option ℕ) → Tray → ℕ × Tray
close_ui ui ending t = if not ui.has_close then (0, t) else (
  elim ending as (λ _. ℕ) [ none ↦ close_limit | some n ↦ min n close_limit ],
  request_close t,
)

-- Whatever becomes of the loop, closing the interface comes to an end within two seconds.
close_ui-ends :
    (ui : DesktopUi) (ending : Option ℕ) (t : Tray) → (close_ui ui ending t).0 ≤ close_limit
unfolding close_ui
close_ui-ends ui ending t = ground arith
