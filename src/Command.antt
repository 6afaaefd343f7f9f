-- ===== src/Command.antt =====
-- cmd/tailblink/main.go, with platform_linux.go: the command line. A request to the running agent is
-- what it answers; Agent has the agent's side. Launch starts the agent, Service is the agent's process.
pub mod Launch
pub mod Service
pub mod Serving
pub mod Effects
pub mod Platforms
pub mod Control
pub mod Opening
use tailclip.Base.{
  ℕ, ◌≡◌, refl, Bool, true, false, not, ◌&&◌, ◌||◌, Option, none, some, List, [], ◌∷◌, ◌++◌, Bytes,
  bytes, arith, same, is_empty, trim_space, has_prefix, ◌==◌, if◌then◌else◌, Result, ok, err, ◌>>=◌,
}
use tailclip.Http.{bearer}
use tailclip.Config.Settings.{Config, ConfigError}

pub data CommandError : Type 0 where
  no_config : ConfigError → CommandError
  no_path no_response bad_response unsafe_address not_opened : CommandError
  told : (message : Bytes) → CommandError
  status_code : ℕ → CommandError
  not_stopped : CommandError → CommandError
  still_running no_start never_healthy canceled unknown_command not_on_linux not_supported :
      CommandError
  no_https : (name : Bytes) → CommandError
  system : CommandError

abbrev pub Done : Type 0
Done = Result CommandError (Unit {0})

-- What each command of the line does.
pub record Actions : Type 0 where
  pub default_action : Done
  pub run_agent : Done
  pub open_settings : Done
  pub finish_install : Done
  pub configure_serve : Done
  pub remove_serve : Done
  pub uninstall_action : Done
  pub print_version : Done

-- `args` is `os.Args` without the program.
unfoldable pub run : Actions → (args : List Bytes) → Done
run a [] = a.default_action
run a (command ∷ rest) =
    if same command (bytes "agent")
    then a.run_agent
    else if same command (bytes "open")
    then a.open_settings
    else if same command (bytes "finish-install")
    then a.finish_install
    else if same command (bytes "serve-install")
    then a.configure_serve
    else if same command (bytes "serve-remove")
    then a.remove_serve
    else if same command (bytes "uninstall")
    then a.uninstall_action
    else if (same command (bytes "version")
        || same command (bytes "--version")
        || same command (bytes "-version"))
    then a.print_version
    else err unknown_command

-- A request that the agent's process gets.
pub record Request : Type 0 where
  pub method : Bytes
  pub url : Bytes
  pub authorization : Bytes

-- `"http://" + agent.ListenAddress`.
abbrev pub agent_url : Bytes
agent_url = bytes "http://127.0.0.1:17733"

abbrev pub control_request : (path token : Bytes) → Request
control_request path token = record {
  method = bytes "POST";
  url = agent_url ++ path;
  authorization = bearer token;
}

-- The answer of the address /v1/health: its status, and the fields `status`, `service` and
-- `agent_version` of its body, if that could be read.
pub record Health : Type 0 where
  pub code : ℕ
  pub body : Option (Bytes × Bytes × Bytes)

-- `localAgentVersion`: `none` is no healthy agent.
unfoldable pub local_agent_version : Option Health → Option Bytes
local_agent_version none = none
local_agent_version (some h) = if not (h.code == 200) then none else elim h.body [
  | none ↦ none
  | some (status, service, version) ↦
      if not (same status (bytes "ok")) || not (same service (bytes "tailblink-agent"))
      then none
      else some version
]

-- The settings that the command reads: its path, then the file.
unfoldable pub load_settings : Option Bytes → Result ConfigError Config → Result CommandError Config
load_settings none loaded = err no_path
load_settings (some path) (err e) = err (no_config e)
load_settings (some path) (ok cfg) = ok cfg

-- `stopAgent`: `post` gives the status of the answer, `none` if there is none.
unfoldable pub stop_agent : Result CommandError Config → (Request → Option ℕ) → Done
stop_agent settings post = settings >>= λ cfg.
    elim (post (control_request (bytes "/local/shutdown") cfg.pairing_token)) [
      | none ↦ err no_response
      | some code ↦ if not (code == 200) then err (status_code code) else ok tt
    ]

-- The answer of /local/open-setup: its status, and the fields `ok`, `url` and `error.message`.
pub record Opened : Type 0 where
  pub code : ℕ
  pub body : Option (Bool × Bytes × Bytes)

abbrev pub local_prefix : Bytes
local_prefix = bytes "http://127.0.0.1:"

-- The address that is opened in the browser.
unfoldable pub address_of : Opened → Result CommandError Bytes
address_of o = elim o.body [
  | none ↦ err bad_response
  | some (fine, url, message) ↦
      if not (o.code == 200) || not fine
      then (if not (is_empty (trim_space message))
          then err (told message)
          else err (status_code o.code))
      else if not (has_prefix url local_prefix)
      then err unsafe_address
      else ok url
]

abbrev asked : Option Opened → Result CommandError Bytes
asked none = err no_response
asked (some o) = address_of o

-- `openSettings`: `ready` is what `ensureAgent` says, `open_url` starts the browser. The log has the
-- addresses that it was started with.
unfoldable pub open_settings :
    (ready : Done)
    → Result CommandError Config
    → (Request → Option Opened)
    → (Bytes → Bool)
    → Done × List Bytes
unfolding address_of
open_settings ready settings post open_url =
    elim (ready >>= λ _. settings >>= λ cfg.
    asked (post (control_request (bytes "/local/open-setup") cfg.pairing_token))) [
      | err e ↦ (err e, [])
      | ok url ↦ (if open_url url then ok tt else err not_opened, url ∷ [])
    ]
