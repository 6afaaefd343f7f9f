-- ===== src/Command/Platforms.antt =====
-- cmd/tailblink/platform_linux.go, platform_other.go and desktop_other.go: what the builds for systems
-- other than Windows do at the commands that differ, and how they start programs.
use tailclip.Base.{Bool, true, false, List, [], ◌∷◌, Bytes, bytes, err}
use tailclip.Command.{Actions, not_on_linux, not_supported}

pub data Build : Type 0 where
  linux_build other_build : Build

-- `parts` has what does not differ.
unfoldable pub actions_of : Build → (parts : Actions) → Actions
actions_of linux_build parts = record parts {
  default_action = parts.open_settings;
  finish_install = err not_on_linux;
  uninstall_action = err not_on_linux;
}
actions_of other_build parts = record parts {
  default_action = err not_supported;
  finish_install = err not_supported;
  uninstall_action = err not_supported;
}

-- `exec.Command` with its attributes: the session of its own and the files that it inherits.
pub record Started : Type 0 where
  pub program : Bytes
  pub arguments : List Bytes
  pub new_session : Bool

unfoldable pub start_detached : (executable : Bytes) → List Bytes → Started
start_detached executable arguments = record {
  program = executable;
  arguments = arguments;
  new_session = true;
}

unfoldable pub open_url : Build → Bytes → Started
open_url linux_build url = record {
  program = bytes "xdg-open";
  arguments = url ∷ [];
  new_session = false;
}
open_url other_build url = record {
  program = bytes "open";
  arguments = url ∷ [];
  new_session = false;
}
