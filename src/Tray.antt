-- ===== src/Tray.antt =====
-- cmd/tailblink/tray_windows.go: the icon in the notification area of Windows, its window and its menu.
-- A call of the system succeeds if its answer is `true`. The menu is shown in two events, since the
-- system handles other messages while it is open.
pub mod Lifecycle
pub mod Interface
use tailclip.Base.{
  ℕ, zero, suc, ◌-◌, Bool, true, false, not, ◌&&◌, Option, none, some, List, [], ◌∷◌, Bytes,
  if◌then◌else◌, Result, ok, err,
}
use tailclip.Installer.{
  Done, Registry, RegistryFaults, autostart_enabled, ensure_autostart, remove_autostart,
}

-- `windowsTray`, with what the system keeps for it: whether the class, the window, the entry of
-- `trayInstances` and the icon are there; the field `window` of the tray, 0 if not `stored`; the menus
-- that are open, with whether the autostart is ticked in them; how many pages are being opened; the
-- posted messages to close; the errors that were shown.
pub record Tray : Type 0 where
  pub class : Bool
  pub window : Bool
  pub instance : Bool
  pub stored : Bool
  pub icon : Bool
  pub opening_settings : Bool
  pub openings : ℕ
  pub menus : List Bool
  pub closes : ℕ
  pub quit : Bool
  pub shut_down : Bool
  pub errors : ℕ
  pub registry : Registry

abbrev pub new_tray : Registry → Tray
new_tray r = record {
  class = false;
  window = false;
  instance = false;
  stored = false;
  icon = false;
  opening_settings = false;
  openings = 0;
  menus = [];
  closes = 0;
  quit = false;
  shut_down = false;
  errors = 0;
  registry = r;
}

pub data Message : Type 0 where
  taskbar_created double_click close_window destroyed other_message : Message
  -- A right click, or the key of the context menu.
  context_menu : Message

-- What the user chooses in the menu.
pub data Choice : Type 0 where
  nothing open_page toggle_autostart end_program : Choice

-- The answers to the calls that one message leads to; `append` is about the four entries of the menu.
pub record Answers : Type 0 where
  pub add : Bool
  pub destroy : Bool
  pub reading : RegistryFaults
  pub create_menu : Bool
  pub append : Bool × Bool × Bool × Bool
  pub cursor : Bool

unfoldable pub show_fatal : Tray → Tray
show_fatal t = record t { errors = suc t.errors }

-- Whether the icon could be added, and the state behind it.
unfoldable pub add_icon : Bool → Tray → Bool × Tray
add_icon added t = if (t.stored && added) then (true, record t { icon = true }) else (false, t)

unfoldable pub remove_icon : Tray → Tray
remove_icon t = if t.stored then record t { icon = false } else t

unfoldable pub request_close : Tray → Tray
request_close t = if t.stored then record t { closes = suc t.closes } else t

-- `wmDestroy`.
unfoldable pub on_destroy : Tray → Tray
unfolding remove_icon
on_destroy t =
    if t.instance
    then record (remove_icon t) { instance = false; stored = false; quit = true }
    else t

-- `DestroyWindow` sends `wmDestroy` before it returns.
unfoldable pub destroy_window : Bool → Tray → Tray
unfolding on_destroy
destroy_window done t = if (t.window && done) then record (on_destroy t) { window = false } else t

-- At most one page is being opened at a time.
unfoldable pub open_setup_page : Tray → Tray
open_setup_page t =
    if t.opening_settings
    then t
    else record t { opening_settings = true; openings = suc t.openings }

-- The goroutine of `openSetupPage` ends.
unfoldable pub page_opened : (succeeded : Bool) → Tray → Tray
unfolding show_fatal
page_opened succeeded t =
    let over = record t { opening_settings = false; openings = t.openings - 1 } in
    if succeeded then over else show_fatal over

-- What can happen while the tray runs.
pub data Event : Type 0 where
  dispatched : Answers → Message → Event
  chose : Choice → RegistryFaults → Event
  page_over : (succeeded : Bool) → Event
  context_over : Event

-- The answers to the calls of `run` before its loop; the first that fails ends it.
pub record Setup : Type 0 where
  pub module_handle : Bool
  pub register_class : Bool
  pub create_window : Bool
  pub load_icon : Bool
  pub register_message : Bool
  pub add : Bool

-- The deferred calls: the window, if the tray still has it, the instance, the class.
unfoldable pub cleaned : (destroyed : Bool) → Tray → Tray
unfolding destroy_window
cleaned done t =
    let gone = if t.stored then destroy_window done t else t in
    record gone { instance = false; stored = false; class = false }

append_tray_menu : Bool × Bool × Bool × Bool → Bool
append_tray_menu (a, b, c, d) = a && b && c && d

module _ (escape : Bytes → Bytes) (fold : Bytes → Bytes → Bool) (executable : Bytes) where
  -- `showMenu` up to the call that shows it.
  unfoldable pub show_menu : Answers → Tray → Tray
  unfolding show_fatal append_tray_menu
  show_menu a t = elim (autostart_enabled escape fold a.reading executable t.registry) [
    | err e ↦ show_fatal t
    | ok enabled ↦
        if (a.create_menu && append_tray_menu a.append && a.cursor)
        then record t { menus = enabled ∷ t.menus }
        else show_fatal t
  ]

  changed : Done × Registry → Tray → Tray
  unfolding show_fatal
  changed (ok _, r) t = record t { registry = r }
  changed (err e, r) t = show_fatal (record t { registry = r })

  chosen : Choice → RegistryFaults → Bool → Tray → Tray
  unfolding changed open_setup_page request_close
  chosen nothing f enabled t = t
  chosen open_page f enabled t = open_setup_page t
  chosen toggle_autostart f true t = changed (remove_autostart f t.registry) t
  chosen toggle_autostart f false t =
      changed (ensure_autostart escape fold f executable t.registry) t
  chosen end_program f enabled t = request_close (record t { shut_down = true })

  -- The rest of `showMenu`, which destroys the menu.
  unfoldable pub menu_closed : Choice → RegistryFaults → Tray → Tray
  unfolding chosen
  menu_closed c f t = elim t.menus [
    | [] ↦ t
    | enabled ∷ others ↦ chosen c f enabled (record t { menus = others })
  ]

  icon_again : Bool × Tray → Tray
  unfolding show_fatal
  icon_again (true, t) = t
  icon_again (false, t) = show_fatal t

  -- `trayWindowProc`; without an instance the system's own procedure handles the message.
  unfoldable pub tray_window_proc : Answers → Message → Tray → Tray
  unfolding icon_again add_icon open_setup_page show_menu destroy_window on_destroy
  tray_window_proc a m t = if not t.instance then t else elim m [
    | taskbar_created ↦ icon_again (add_icon a.add t)
    | double_click ↦ open_setup_page t
    | context_menu ↦ show_menu a t
    | close_window ↦ destroy_window a.destroy t
    | destroyed ↦ on_destroy t
    | other_message ↦ t
  ]

  unfoldable pub step : Event → Tray → Tray
  step (dispatched a m) t = tray_window_proc a m t
  step (chose c f) t = menu_closed c f t
  step (page_over succeeded) t = if t.opening_settings then page_opened succeeded t else t
  step context_over t = request_close t

  unfoldable pub steps : List Event → Tray → Tray
  steps [] t = t
  steps (e ∷ es) t = steps es (step e t)

  -- With the window: the loop runs over the events; `none` is an error before it.
  unfoldable pub run_window : Setup → List Event → Tray → Bool × Tray
  run_window s es t =
      if not (s.load_icon && s.register_message)
      then (false, t)
      else let (added, u) = add_icon s.add t in if added then (true, steps es u) else (false, u)

  -- Whether it reported to be ready, and the state in the end. `done` is what destroying the window
  -- in the deferred call answers.
  unfoldable pub run : Setup → List Event → (done : Bool) → Tray → Bool × Tray
  unfolding run_window cleaned
  run s es done t =
      let with_class = record t { class = true } in
      let with_window = record with_class { window = true; instance = true; stored = true } in
      if not (s.module_handle && s.register_class)
      then (false, t)
      else if not s.create_window
      then (false, record with_class { class = false })
      else let (ready, u) = run_window s es with_window in (ready, cleaned done u)
