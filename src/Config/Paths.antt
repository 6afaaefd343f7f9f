-- ===== src/Config/Paths.antt =====
-- Where the settings and the log are: `DefaultPath` of internal/config/config.go and of
-- internal/logging/logging.go. `filepath.Join` is about clean paths here.
use tailclip.Base.{Bool, Option, none, some, ◌++◌, Bytes, bytes, is_empty, if◌then◌else◌}

-- The variables LOCALAPPDATA, XDG_CONFIG_HOME and XDG_STATE_HOME, empty if they are not set, and
-- `os.UserHomeDir`, `none` on an error.
pub record Places : Type 0 where
  pub windows : Bool
  pub local_app_data : Bytes
  pub config_home : Bytes
  pub state_home : Bytes
  pub home : Option Bytes

-- `none` is an error.
abbrev on_windows : Bytes → Bytes → Option Bytes
on_windows base file = if is_empty base then none else some (base ++ bytes "\\TailBlink\\" ++ file)

abbrev elsewhere : Bytes → Option Bytes → Bytes → Bytes → Option Bytes
elsewhere base home folder file =
    if is_empty base
    then elim home [ none ↦ none | some h ↦ some (h ++ folder ++ bytes "/tailblink/" ++ file) ]
    else some (base ++ bytes "/tailblink/" ++ file)

unfoldable pub config_path : Places → Option Bytes
config_path p =
    if p.windows
    then on_windows p.local_app_data (bytes "config.json")
    else elsewhere p.config_home p.home (bytes "/.config") (bytes "config.json")

unfoldable pub log_path : Places → Option Bytes
log_path p =
    if p.windows
    then on_windows p.local_app_data (bytes "tailblink.log")
    else elsewhere p.state_home p.home (bytes "/.local/state") (bytes "tailblink.log")
