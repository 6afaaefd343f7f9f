-- ===== src/Tests/Connection.antt =====
-- A change of the connection on concrete data.
use tailclip.Base.{ℕ, ◌<◌, ◌≡◌, inl, inr, refl, true, false, none, some, [], ◌∷◌, bytes, ok}
use tailclip.Simple.{new_service}
use tailclip.Tailscale.{Status}
use tailclip.Agent.{Agent, Surroundings, configure_connection}
use tailclip.Simple.Start.{again}
use tailclip.Agent.Dashboard.{connection_data, ticket_url}
use tailclip.Agent.Showing.{IsShown, pair-IsShown}
use tailclip.Agent.Modes.{IsExclusive, configure-IsExclusive}
use tailclip.Tests.{settings, codec, empty_disk, no_faults}

abbrev pub simple_agent : Agent
simple_agent = record {
  store = record { cfg = record settings { connection_mode = bytes "simple" }; disk = empty_disk };
  pairing = [];
  entry =
      some (record (new_service (bytes "desk")) {
        active = true;
        ready = true;
        credential = bytes "k";
      });
  shown = none;
  stopped = false;
}

abbrev pub node : Status
node = record {
  backend_state = bytes "Running";
  dns_name = bytes "pc.t.ts.net";
  host_name = bytes "pc";
  user_id = 7;
  tags = [];
  users = [];
}

abbrev pub surroundings : Surroundings
surroundings = record {
  tailnet = ok node;
  prepare = none;
  faults = no_faults;
  conditions = record {
    ended = false;
    session_bits = none;
    token_bits = none;
    port = true;
    tunnel = none;
    address = none;
    probes = [];
  };
  bits = none;
  now = 5;
}

configure-IsExclusive_example :
    IsExclusive (configure_connection codec surroundings (bytes "tailscale") simple_agent).1
unfolding tailclip.Config.Settings.mode
configure-IsExclusive_example =
    configure-IsExclusive codec surroundings (bytes "tailscale") simple_agent (inr refl)

-- An agent without an entry yet, and a start that goes well.
abbrev fresh_agent : Agent
fresh_agent = record simple_agent { entry = none }

abbrev going_well : Surroundings
going_well = record surroundings {
  conditions = record {
    ended = false;
    session_bits = some (0 ∷ 0 ∷ 0 ∷ []);
    token_bits = some (0 ∷ 0 ∷ 0 ∷ []);
    port = true;
    tunnel = some (record { id = 1 });
    address = some (record {
      scheme = bytes "https";
      host = bytes "a.trycloudflare.com";
      path = [];
      raw_query = [];
      has_user = false;
      fragment = [];
    });
    probes =
        record {
          reached = true;
          status = 200;
          body = some (bytes "AAAA", bytes "tailblink-simple");
          pause = again;
        }
        ∷ [];
  };
  bits = some (0 ∷ 0 ∷ 0 ∷ []);
}

abbrev paired_agent : Agent
paired_agent = (configure_connection codec going_well (bytes "pair") fresh_agent).1

pair-IsShown_example :
    (shown : IsShown going_well.now paired_agent) × ((later : ℕ)
      → later < shown.ticket.expires_at
      → (connection_data false later paired_agent).pairing_url ≡ ticket_url shown.ticket)
unfolding configure_connection new_service tailclip.Base.same tailclip.Simple.Start.start
    tailclip.Simple.Start.is_running tailclip.Simple.Start.valid_url
    tailclip.Simple.Start.valid_host tailclip.Base.strip_prefix tailclip.Base.trim_suffix
    tailclip.Simple.Start.verify tailclip.Simple.Start.is_own_health tailclip.Config.Base64.encode
    tailclip.Config.Base64.encode_digit tailclip.Config.Settings.mode tailclip.Simple.new_pairing
    tailclip.Simple.set_active tailclip.Simple.Start.become_ready tailclip.Simple.Start.enter_host
pair-IsShown_example =
    pair-IsShown codec going_well (0 ∷ 0 ∷ 0 ∷ []) refl refl fresh_agent (inl refl) refl
