-- ===== src/Tests/Control.antt =====
-- The command line against the running agent, and an installation of both files, on concrete data.
use tailclip.Base.{
  ◌≡◌, ◌≢◌, ◌⊎◌, refl, Bool, true, some, [], ◌∷◌, Bytes, bytes, ok, err, Option, none, String,
  if◌then◌else◌, same,
}
use tailclip.Http.{Parsers}
use tailclip.Clipboard.{memory}
use tailclip.Tunnel.{current_binary}
use tailclip.Installer.Files.{install_windows_files, FilesOutcome, install_windows_files-Outcome}
use tailclip.Agent.Routes.{handle}
use tailclip.Webui.Dashboard.{HostError}
use tailclip.Command.{status_code, control_request, stop_agent}
use tailclip.Command.Control.{arrives, status_of, KnowsLoopback, stop_agent-agrees}
use tailclip.Command.Opening.{Agreement, open_settings-Agreement}
use tailclip.Tests.{parsers, codec, settings}
use tailclip.Tests.Connection.{surroundings}
use tailclip.Tests.Routes.{parse, texts, assets, dials, process}
use tailclip.Tests.Companion.{digest, manifest, swapped, program, disk}
use tailclip.Tests.Setup.{stuck, files}

-- Every address is one of this computer.
abbrev local_parsers : Parsers
local_parsers = record parsers { split_host = λ s. some (bytes "127.0.0.1") }

abbrev remote : Bytes
remote = bytes "127.0.0.1:50000"

abbrev local_addresses : KnowsLoopback local_parsers remote
unfolding same
local_addresses = record { remote_host = refl; own_host = refl; loopback = refl }

stop_agent-agrees_example :
    let report = stop_agent (ok settings) (λ q. some (
      status_of
        (handle codec parse local_parsers texts assets surroundings dials memory
          (arrives remote q)
          process).0)) in
    let after =
      (handle codec parse local_parsers texts assets surroundings dials memory
        (arrives remote (control_request (bytes "/local/shutdown") settings.pairing_token))
        process).1 in
    ((settings.pairing_token ≡ process.agent.store.cfg.pairing_token)
      × (report ≡ ok tt)
      × (after.agent.stopped ≡ true))
    ⊎ ((settings.pairing_token ≢ process.agent.store.cfg.pairing_token)
        × (report ≡ err (status_code 403))
        × (after ≡ process))
stop_agent-agrees_example =
    stop_agent-agrees codec parse local_parsers texts assets surroundings dials memory remote
      local_addresses settings process

abbrev utf8 : String → Bytes
utf8 message = bytes "refused"

abbrev problem : HostError → Bytes
problem e = bytes "later"

open_settings-Agreement_example :
    Agreement codec parse local_parsers texts assets surroundings dials memory remote
      local_addresses
      (bytes "49152")
      utf8
      problem
      settings
      process
      (λ url. true)
open_settings-Agreement_example =
    open_settings-Agreement codec parse local_parsers texts assets surroundings dials memory remote
      local_addresses (bytes "49152") utf8 problem settings process (λ url. true)

install_windows_files-Outcome_example :
    FilesOutcome digest manifest (bytes "os") stuck (bytes "d/cf") disk files (
      install_windows_files digest manifest
        (bytes "os")
        swapped
        stuck
        (bytes "s")
        (bytes "d")
        disk
        files)
unfolding current_binary same tailclip.Base.Map.get
install_windows_files-Outcome_example =
    install_windows_files-Outcome digest manifest (bytes "os") swapped stuck (bytes "s") (bytes "d")
      program disk files refl refl
