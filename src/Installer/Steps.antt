-- ===== src/Installer/Steps.antt =====
-- cmd/tailblink/platform_windows.go: the order of the steps of `run`, `finish`, `prepare` and
-- `uninstallAction`, over what each step answers. The log has the steps that were taken.
pub mod Consent
use tailclip.Base.{
  Bool, true, false, not, Option, none, some, List, [], ◌∷◌, ◌++◌, Bytes, if◌then◌else◌, Result, ok,
  err,
}
use tailclip.Installer.{
  InstallError, not_installed, not_running, serve_conflict, canceled, deadline_exceeded, refused,
  elevation_failed, serve_not_removed, Done,
}

pub data Action : Type 0 where
  copied autostarted ensured_agent configured settings_opened backup_removed : Action
  asked_https : (name : Bytes) → Action
  elevated_install : Action
  asked_removal stopped_agent autostart_removed removal_scheduled : Action
  elevated_removal : (helper : Bytes) → Action

abbrev pub Log : Type 0
Log = List Action

-- The answers of the fields of `windowsInstaller`. `same_path` is the comparison of the two paths.
pub record Installer : Type 0 where
  pub install_path : Result InstallError Bytes
  pub abs : Result InstallError Bytes
  pub same_path : Bytes → Bytes → Bool
  pub copy_executable : Done
  pub ensure_autostart : Done
  pub ensure_agent : Done
  pub skip_tailscale : Option (Result InstallError Bool)
  pub new_tailscale : Done
  pub status : Result InstallError Bytes
  pub serve_configured : Result InstallError Bool
  pub confirm_https : Result InstallError Bool
  pub configure_serve : Done
  pub run_elevated : Done
  pub open_settings : Done
  pub remove_backup : Done

abbrev pub Steps : Type 0 → Type 0
Steps A = Result InstallError A × Log

abbrev after_step : {A B : Type 0} → Steps A → (A → Steps B) → Steps B
after_step (ok a, log) f = let (r, more) = f a in (r, log ++ more)
after_step (err e, log) f = (err e, log)

infixl 5 ◌>>=◌ ◌>>◌
abbrev ◌>>=◌ : {A B : Type 0} → Steps A → (A → Steps B) → Steps B
m >>= f = after_step m f

abbrev ◌>>◌ : {B : Type 0} → Steps (Unit {0}) → Steps B → Steps B
m >> k = after_step m (λ _. k)

-- A question, which leaves no trace, and a step, which does.
abbrev query : {A : Type 0} → Result InstallError A → Steps A
query r = (r, [])

abbrev step : {A : Type 0} → Action → Result InstallError A → Steps A
step a r = (r, a ∷ [])

abbrev done : Steps (Unit {0})
done = (ok tt, [])

-- The errors that an administrator's rights would not help against.
unfoldable pub is_final : InstallError → Bool
is_final not_installed = true
is_final not_running = true
is_final serve_conflict = true
is_final canceled = true
is_final deadline_exceeded = true
is_final _ = false

retried : InstallError → Done → Done
retried direct (ok _) = ok tt
retried direct (err retry) = err (elevation_failed direct retry)

unfoldable pub configure_or_elevate : Installer → Steps (Unit {0})
unfolding is_final retried
configure_or_elevate i = elim i.configure_serve [
  | ok _ ↦ (ok tt, configured ∷ [])
  | err direct ↦
      if is_final direct
      then (err direct, configured ∷ [])
      else (retried direct i.run_elevated, configured ∷ elevated_install ∷ [])
]

unfoldable pub after_consent : Installer → Bool → Steps (Unit {0})
unfolding configure_or_elevate
after_consent i accepted = if accepted then configure_or_elevate i else (err refused, [])

unfoldable pub prepare : Installer → Steps (Unit {0})
unfolding after_consent
prepare i = query i.new_tailscale >> query i.status >>= λ name.
    query i.serve_configured >>= λ is_set.
    if is_set then done else step (asked_https name) i.confirm_https >>= after_consent i

-- `skip` is the answer that the connection does not go through Tailscale.
unfoldable pub skip : Option (Result InstallError Bool) → Result InstallError Bool
skip none = ok false
skip (some r) = r

unfoldable pub finish : Installer → Steps (Unit {0})
unfolding prepare skip
finish i =
    step autostarted i.ensure_autostart
    >> step ensured_agent i.ensure_agent
    >> query (skip i.skip_tailscale)
    >>= λ skipped. (if skipped then done else prepare i) >> step settings_opened i.open_settings

first_error : Done → Done → Done
first_error (err e) cleanup = err e
first_error (ok _) cleanup = cleanup

-- The backup is removed in the end, whether or not the rest succeeded.
with_cleanup : Installer → Steps (Unit {0}) → Steps (Unit {0})
unfolding first_error
with_cleanup i (r, log) = (first_error r i.remove_backup, log ++ backup_removed ∷ [])

unfoldable pub run : Installer → Steps (Unit {0})
unfolding finish with_cleanup
run i = query i.install_path >>= λ target. query i.abs >>= λ current.
    (if i.same_path current target then done else step copied i.copy_executable)
    >> with_cleanup i (finish i)

-- The answers of the steps of `uninstallAction`.
pub record Uninstaller : Type 0 where
  pub confirmed : Result InstallError Bool
  pub executable : Bytes
  pub target_exists : Bool
  pub install_path : Result InstallError Bytes
  pub agent_runs : Bool
  pub new_tailscale : Done
  pub run_elevated : Done
  pub remove_autostart : Done
  pub schedule_remove : Done

-- The installed program, if it is there, or the one that runs.
unfoldable pub helper_of : Uninstaller → (target : Bytes) → Bytes
helper_of u target = if u.target_exists then target else u.executable

-- The entry of Tailscale is removed with an administrator's rights, unless Tailscale is not there.
unfoldable pub remove_entry : Uninstaller → (helper : Bytes) → Steps (Unit {0})
remove_entry u helper = elim u.new_tailscale [
  | err not_installed ↦ done
  | err e ↦ (err e, [])
  | ok _ ↦ elim u.run_elevated [
    | ok _ ↦ (ok tt, elevated_removal helper ∷ [])
    | err e ↦ (err (serve_not_removed e), elevated_removal helper ∷ [])
  ]
]

-- What `stopAgent` answers is not looked at.
stop_running : Uninstaller → Steps (Unit {0})
stop_running u = if u.agent_runs then (ok tt, stopped_agent ∷ []) else done

unfoldable pub remove_all : Uninstaller → Steps (Unit {0})
unfolding remove_entry stop_running helper_of
remove_all u = query u.install_path >>= λ target.
    stop_running u
    >> remove_entry u (helper_of u target)
    >> step autostart_removed u.remove_autostart
    >> step removal_scheduled u.schedule_remove

unfoldable pub uninstall_action : Uninstaller → Steps (Unit {0})
unfolding remove_all
uninstall_action u =
    step asked_removal u.confirmed >>= λ agreed. if agreed then remove_all u else done
