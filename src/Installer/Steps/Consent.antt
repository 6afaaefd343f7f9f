-- ===== src/Installer/Steps/Consent.antt =====
-- What must have gone before each step of an installation and of a removal.
use tailclip.Base.{◌≡◌, ◌⊎◌, true, false, [], ◌∷◌, arith, ok, err}
use tailclip.Installer.{InstallError, not_installed}
use tailclip.Installer.Steps.{
  Action, ensured_agent, configured, settings_opened, asked_https, elevated_install, asked_removal,
  autostart_removed, removal_scheduled, Log, Installer, Uninstaller, is_final, configure_or_elevate,
  prepare, skip, finish, run, remove_entry, helper_of, elevated_removal, uninstall_action,
  after_consent, remove_all,
}

abbrev pub Each : (Action → Type 0) → Log → Type 0
Each P [] = Unit
Each P (a ∷ log) = P a × Each P log

-- What must hold where a step is taken.
abbrev pub Justified : Installer → Action → Type 0
Justified i configured = (i.serve_configured ≡ ok false) × (i.confirm_https ≡ ok true)
Justified i elevated_install =
    (i.serve_configured ≡ ok false)
    × (i.confirm_https ≡ ok true)
    × ((e : InstallError) × (i.configure_serve ≡ err e) × (is_final e ≡ false))
Justified i (asked_https name) = (i.status ≡ ok name) × (i.serve_configured ≡ ok false)
Justified i settings_opened = (i.ensure_autostart ≡ ok tt) × (i.ensure_agent ≡ ok tt)
Justified i ensured_agent = i.ensure_autostart ≡ ok tt
Justified i _ = Unit

-- In an installation, Tailscale is configured only if it is not yet, and the user has agreed, asked
-- with the name that it has; an administrator's rights are asked for only after an attempt without
-- them has failed with an error that they may help; the settings are opened only once the program is
-- started with the session and the agent runs.
pub run-Justified : (i : Installer) → Each (Justified i) (run i).1
unfolding run finish prepare skip configure_or_elevate after_consent is_final
run-Justified i = ground arith

-- The way in which Tailscale is ready.
abbrev pub IsReady : Installer → Type 0
IsReady i =
    (skip i.skip_tailscale ≡ ok true)
    ⊎ (i.serve_configured ≡ ok true)
    ⊎ ((i.confirm_https ≡ ok true) × ((i.configure_serve ≡ ok tt) ⊎ (i.run_elevated ≡ ok tt)))

-- An installation that reports success did each of its steps, and Tailscale is ready or not wanted.
pub run_ok :
    (i : Installer)
    → (run i).0 ≡ ok tt
    → (i.ensure_autostart ≡ ok tt)
      × (i.ensure_agent ≡ ok tt)
      × IsReady i
      × (i.open_settings ≡ ok tt)
      × (i.remove_backup ≡ ok tt)
unfolding run finish prepare skip configure_or_elevate after_consent is_final
run_ok i h = ground arith

-- The same for a removal.
abbrev pub Permitted : Uninstaller → Action → Type 0
Permitted u asked_removal = Unit
Permitted u autostart_removed =
    (u.confirmed ≡ ok true) × ((u.new_tailscale ≡ err not_installed) ⊎ (u.run_elevated ≡ ok tt))
Permitted u removal_scheduled =
    (u.confirmed ≡ ok true)
    × ((u.new_tailscale ≡ err not_installed) ⊎ (u.run_elevated ≡ ok tt))
    × (u.remove_autostart ≡ ok tt)
Permitted u (elevated_removal helper) =
    (u.confirmed ≡ ok true)
    × ((u.install_path ≡ ok helper) ⊎ ((u.target_exists ≡ false) × (helper ≡ u.executable)))
Permitted u _ = u.confirmed ≡ ok true

-- In a removal nothing but the question is done without the user's consent; the start with the
-- session is removed only once the entry of Tailscale is, or Tailscale is not there; the files only
-- after that; and an administrator's rights are given to the installed program or, if it is not there,
-- to the running one.
pub uninstall_action-Permitted : (u : Uninstaller) → Each (Permitted u) (uninstall_action u).1
unfolding uninstall_action remove_all remove_entry helper_of
uninstall_action-Permitted u = ground arith
