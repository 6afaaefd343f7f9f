-- ===== src/Tests/Tailnet.antt =====
-- The Tailscale client against given answers of the command.
use tailclip.Base.{Option, some, [], ◌∷◌, Bytes, bytes, same, if◌then◌else◌}
use tailclip.Tailscale.{Command, Decoders, Status, agent_target}

abbrev node : Status
node = record {
  backend_state = bytes "Running";
  dns_name = bytes "pc.t.ts.net";
  host_name = bytes "pc";
  user_id = 7;
  tags = [];
  users = (7, bytes "ann@x") ∷ [];
}

-- "own" is a configuration with TailBlink's target, "other" one with another service, "files" one
-- whose path serves no proxy, and any other text one without the path.
abbrev decoders : Decoders
decoders = record {
  status_of = λ s. some node;
  serve_of = λ s.
      if same s (bytes "own")
      then some (((bytes "/tailblink", agent_target) ∷ []) ∷ [])
      else if same s (bytes "other")
      then some (((bytes "/tailblink", bytes "http://x") ∷ []) ∷ [])
      else if same s (bytes "files")
      then some (((bytes "/tailblink", []) ∷ []) ∷ [])
      else some [];
}

abbrev says : Bytes → Command → Option Bytes
says s c = some s
