-- ===== src/Tray/Lifecycle.antt =====
-- What holds while the tray runs, and what is left when it ends.
use tailclip.Base.{
  ◌≡◌, refl, Bool, true, false, not, ◌||◌, List, [], ◌∷◌, Bytes, arith, trim_space, if◌then◌else◌,
  ok,
}
use tailclip.Installer.{
  Registry, RegistryFaults, quiet, autostart_command, autostart_enabled,
  autostart_enabled-ensure_autostart, autostart_enabled-remove_autostart,
}
use tailclip.Tray.{
  Tray, new_tray, Message, taskbar_created, double_click, close_window, destroyed, other_message,
  context_menu, Choice, toggle_autostart, Answers, Event, dispatched, chose, page_over,
  context_over, show_fatal, add_icon, remove_icon, request_close, on_destroy, destroy_window,
  open_setup_page, page_opened, show_menu, menu_closed, tray_window_proc, step, steps, Setup,
  cleaned, run_window, run,
}

-- The tray is registered while it has its window; the icon is shown for such a window only; and one
-- page at most is being opened.
abbrev pub IsValid : Tray → Type 0
IsValid t =
    (t.instance ≡ t.stored)
    × ((not t.stored || t.window) ≡ true)
    × ((not t.icon || t.stored) ≡ true)
    × (t.openings ≡ (if t.opening_settings then 1 else 0))

module _ (escape : Bytes → Bytes) (fold : Bytes → Bytes → Bool) (executable : Bytes) where
  proc-IsValid :
      (a : Answers) (m : Message) (t : Tray)
      → IsValid t
      → IsValid (tray_window_proc escape fold executable a m t)
  unfolding tray_window_proc add_icon show_fatal on_destroy remove_icon destroy_window
      open_setup_page show_menu
  proc-IsValid a taskbar_created t v = ground arith
  proc-IsValid a double_click t v = ground arith
  proc-IsValid a close_window t v = ground arith
  proc-IsValid a destroyed t v = ground arith
  proc-IsValid a other_message t v = ground arith
  proc-IsValid a context_menu t v = ground arith

  menu-IsValid :
      (c : Choice) (f : RegistryFaults) (t : Tray)
      → IsValid t
      → IsValid (menu_closed escape fold executable c f t)
  unfolding menu_closed open_setup_page request_close show_fatal
  menu-IsValid c f t v = ground arith

  step-IsValid : (e : Event) (t : Tray) → IsValid t → IsValid (step escape fold executable e t)
  unfolding step page_opened request_close show_fatal
  step-IsValid (dispatched a m) t v = proc-IsValid a m t v
  step-IsValid (chose c f) t v = menu-IsValid c f t v
  step-IsValid (page_over succeeded) t v = ground arith
  step-IsValid context_over t v = ground arith

  -- Every event keeps the tray's invariant.
  pub steps-IsValid :
      (es : List Event) (t : Tray) → IsValid t → IsValid (steps escape fold executable es t)
  unfolding steps
  steps-IsValid [] t v = v
  steps-IsValid (e ∷ es) t v =
      steps-IsValid es (step escape fold executable e t) (step-IsValid e t v)

  -- What is left: nothing in the notification area, no entry of the tray, no class; at most one page
  -- that is still being opened.
  abbrev pub IsGone : Tray → Type 0
  IsGone t =
      (t.icon ≡ false)
      × (t.instance ≡ false)
      × (t.stored ≡ false)
      × (t.class ≡ false)
      × (t.openings ≡ (if t.opening_settings then 1 else 0))

  cleaned-IsGone : (t : Tray) → IsValid t → IsGone (cleaned true t)
  unfolding cleaned destroy_window on_destroy remove_icon
  cleaned-IsGone t v = ground arith

  run_window-IsValid :
      (s : Setup) (es : List Event) (t : Tray)
      → IsValid t
      → IsValid (run_window escape fold executable s es t).1
  unfolding run_window add_icon
  run_window-IsValid s es t v =
      let shown : Tray = record t { icon = true } in ground (arith, steps-IsValid es shown)

  -- However the setup goes, whatever happens while the tray runs, and however its loop ends: if the
  -- window can be destroyed by the deferred call, no icon, no entry in `trayInstances` and no class
  -- is left, and one settings page at most is still being opened.
  pub run-IsGone :
      (s : Setup) (es : List Event) (r : Registry)
      → IsGone (run escape fold executable s es true (new_tray r)).1
  unfolding run
  run-IsGone s es r =
      let started : Tray = record (new_tray r) {
        class = true;
        window = true;
        instance = true;
        stored = true;
      } in
      let ended = (run_window escape fold executable s es started).1 in
      let kept = run_window-IsValid s es started (refl, refl, refl, refl) in
      ground (arith, cleaned-IsGone ended kept)

  -- A choice of the tick that reports no error leaves it the other way round, where the command has
  -- no space around it and is equal to itself.
  pub menu_closed-toggle_autostart :
      (f : RegistryFaults) (t : Tray) (enabled : Bool) (others : List Bool)
      → fold (autostart_command escape fold executable) (autostart_command escape fold executable)
        ≡ true
      → trim_space (autostart_command escape fold executable)
        ≡ autostart_command escape fold executable
      → t.menus ≡ enabled ∷ others
      → (menu_closed escape fold executable toggle_autostart f t).errors ≡ t.errors
      → autostart_enabled escape fold quiet executable
          (menu_closed escape fold executable toggle_autostart f t).registry
        ≡ ok (not enabled)
  unfolding menu_closed show_fatal
  menu_closed-toggle_autostart f t true others same trim m e =
      ground (arith, autostart_enabled-remove_autostart escape fold f executable t.registry)
  menu_closed-toggle_autostart f t false others same trim m e =
      ground
        (arith, autostart_enabled-ensure_autostart escape fold f executable t.registry same trim)
