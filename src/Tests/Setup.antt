-- ===== src/Tests/Setup.antt =====
-- Installing on Windows, and the icon of the running program.
use tailclip.Base.{true, false, none, some, List, [], ◌∷◌, bytes, same, ok, err}
use tailclip.Installer.{system, Registry, quiet}
use tailclip.Installer.Copy.{Files, Faults, Outcome, copy_executable, copy_executable-Outcome}
use tailclip.Installer.Steps.{Installer, Uninstaller, run, uninstall_action}
use tailclip.Installer.Steps.Consent.{
  Each, Justified, Permitted, run-Justified, uninstall_action-Permitted,
}
use tailclip.Tray
use tailclip.Tray.Lifecycle.{IsGone, run-IsGone}

abbrev pub files : Files
files = record { source = some (bytes "new"); target = some (bytes "v1"); new = none; old = none }

-- The new program cannot be put in its place, nor the old one put back.
abbrev pub stuck : Faults
stuck = record {
  mkdir = false;
  read_source = false;
  open_source = false;
  open_new = false;
  copy = false;
  partial = [];
  sync = false;
  close = false;
  read_target = false;
  stat_target = false;
  remove_stale = false;
  set_aside = false;
  apply = true;
  roll_back = true;
  remove_new = false;
  remove_old = false;
}

copy_executable-Outcome_example :
    Outcome (λ s. s) stuck files (copy_executable (λ s. s) stuck files)
copy_executable-Outcome_example = copy_executable-Outcome (λ s. s) stuck files

-- Configuring fails without an administrator's rights and works with them.
abbrev installer : Installer
installer = record {
  install_path = ok (bytes "T");
  abs = ok (bytes "S");
  same_path = same;
  copy_executable = ok tt;
  ensure_autostart = ok tt;
  ensure_agent = ok tt;
  skip_tailscale = some (ok false);
  new_tailscale = ok tt;
  status = ok (bytes "pc.x.ts.net");
  serve_configured = ok false;
  confirm_https = ok true;
  configure_serve = err system;
  run_elevated = ok tt;
  open_settings = ok tt;
  remove_backup = ok tt;
}

run-Justified_example : Each (Justified installer) (run installer).1
run-Justified_example = run-Justified installer

abbrev uninstaller : Uninstaller
uninstaller = record {
  confirmed = ok true;
  executable = bytes "S";
  target_exists = false;
  install_path = ok (bytes "T");
  agent_runs = true;
  new_tailscale = ok tt;
  run_elevated = ok tt;
  remove_autostart = ok tt;
  schedule_remove = ok tt;
}

uninstall_action-Permitted_example : Each (Permitted uninstaller) (uninstall_action uninstaller).1
uninstall_action-Permitted_example = uninstall_action-Permitted uninstaller

abbrev registry : Registry
registry = record { key = true; value = none }

abbrev answers : Tray.Answers
answers = record {
  add = true;
  destroy = true;
  reading = quiet;
  create_menu = true;
  append = (true, true, true, true);
  cursor = true;
}

abbrev setup : Tray.Setup
setup = record {
  module_handle = true;
  register_class = true;
  create_window = true;
  load_icon = true;
  register_message = true;
  add = true;
}

abbrev events : List Tray.Event
events =
    Tray.dispatched answers Tray.double_click
    ∷ Tray.dispatched answers Tray.context_menu
    ∷ Tray.chose Tray.toggle_autostart quiet
    ∷ Tray.dispatched answers Tray.taskbar_created
    ∷ []

run-IsGone_example :
    IsGone
      (λ s. s)
      same
      (bytes "T")
      (Tray.run (λ s. s) same (bytes "T") setup events true (Tray.new_tray registry)).1
run-IsGone_example = run-IsGone (λ s. s) same (bytes "T") setup events registry
