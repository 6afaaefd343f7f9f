-- ===== src/Tests/Routes.antt =====
-- The agent's routes on concrete requests.
use tailclip.Base.{
  ℕ, ◌≡◌, ◌⊎◌, inr, inl, refl, Bool, true, false, Option, none, some, [], ◌∷◌, Bytes, bytes, Result,
  ok, err, ltb, ◌&&◌, arith,
}
use tailclip.Http.{Request, get_header, bearer, request_is_local}
use tailclip.Clipboard.{Memory, memory, new_memory, synchronized}
use tailclip.Simple.Serve.{serve_http}
use tailclip.Config.Base64.{encode, AreBytes}
use tailclip.Config.Atomic.{written}
use tailclip.Pairing.{Url}
use tailclip.Api.RateLimit.{new_limiter}
use tailclip.Webui.{Assets}
use tailclip.Webui.Dashboard.{new_host}
use tailclip.Agent.{Agent, Surroundings, current_mode, entry_of}
use tailclip.Agent.Modes.{entry_active}
use tailclip.Agent.Dashboard.{Shown, nothing, dashboard_data}
use tailclip.Agent.Routes.{Process, Texts, Dials, route, handle}
use tailclip.Agent.Entries.{route-one_entry, handle-stopped}
use tailclip.Agent.Rotation.{dashboard_data-rotates}
use tailclip.Agent.Setup.{Opens, dashboard_data-Opens}
use tailclip.Tests.{parsers, pair_parsers, request, codec, zeros, token, store}
use tailclip.Tests.Connection.{simple_agent, surroundings, node}

abbrev url : Url
url = record {
  scheme = bytes "https";
  has_user = false;
  hostname = bytes "pc.t.ts.net";
  path = bytes "/tailblink/v1";
  raw_query = [];
  fragment = [];
}

abbrev pub parse : Bytes → Option Url
parse s = some url

abbrev pub texts : Texts
texts = record { notice = λ n. []; problem = λ e. [] }

abbrev pub assets : Assets
assets = record { send = bytes "s"; pull = bytes "p" }

abbrev pub dials : Dials
dials = record {
  busy = false;
  port = true;
  clipboard_available = true;
  id_bits = some zeros;
  nonce_bits = some zeros;
}

abbrev pub process : Process Memory
process = record {
  agent = simple_agent;
  host = new_host;
  api = record { limiter = new_limiter 60 1000; desktop = new_memory; log = [] };
}

abbrev text_request : Request
text_request = request (bytes "POST") (bytes "/v1/clipboard/text") [] (bytes "hello")

-- The phone asks a simple entry that has no address yet.
abbrev phone_request : Request
phone_request = request (bytes "POST") (bytes "/v1/clipboard/text") [] (bytes "hello")

route-one_entry_example :
    (((route codec parse parsers texts assets surroundings dials memory simple_agent text_request
          process).1.api.desktop
        ≡ process.api.desktop)
      ⊎ ((entry_active simple_agent.entry ≡ false)
          × (current_mode simple_agent ≡ bytes "tailscale")))
    × (((serve_http pair_parsers
            (synchronized memory)
            (entry_of codec surroundings simple_agent)
            9
            none
            phone_request
            (entry_of codec surroundings simple_agent)
            process.api.desktop).2
          ≡ process.api.desktop)
        ⊎ (current_mode simple_agent ≡ bytes "simple"))
unfolding tailclip.Config.Settings.mode
route-one_entry_example =
    route-one_entry codec parse parsers texts assets surroundings dials memory pair_parsers
      simple_agent text_request phone_request process (entry_of codec surroundings simple_agent) 9
      none (inr refl)

abbrev stop_request : Request
stop_request =
    record (request (bytes "POST") (bytes "/local/shutdown")
      ((bytes "Authorization", bearer token) ∷ []) []) { host = bytes "127.0.0.1" }

handle-stopped_example :
    (stop_request.path ≡ bytes "/local/shutdown")
    × (stop_request.method ≡ bytes "POST")
    × (request_is_local parsers stop_request ≡ true)
    × (get_header (bytes "Authorization") stop_request.header
        ≡ bearer process.agent.store.cfg.pairing_token)
unfolding handle tailclip.Agent.Routes.route tailclip.Base.same tailclip.Agent.Routes.shutdown
    request_is_local tailclip.Http.trim_brackets tailclip.Http.bearer_matches
    tailclip.Base.strip_prefix get_header tailclip.Http.values
handle-stopped_example =
    handle-stopped codec parse parsers texts assets surroundings dials memory stop_request process
      refl refl

abbrev agent : Agent
agent = record simple_agent { store = store; entry = none }

abbrev drawing : Surroundings
drawing = record surroundings { bits = some zeros }

abbrev shown : Shown
shown = record {
  mode = bytes "tailscale";
  notice = nothing;
  simple_paired = false;
  device_name = bytes "desk";
  dns_name = bytes "pc.t.ts.net";
  pairing_url =
      bytes "https://pc.t.ts.net/tailblink/setup/AAAAAAAAAAAAAAAAAAAAAAAAAAAAAAAAAAAAAAAAAAA";
  expires_at = 900_000_000_005;
  clipboard_available = true;
  shortcuts_ready = true;
}

dashboard_data-rotates_example :
    (raw : Bytes) × (drawing.bits ≡ some raw)
    × ((dashboard_data codec parse drawing false true
          (some zeros)
          true
          true
          agent).1.store.cfg.pairing_token
        ≡ encode raw)
    × ((dashboard_data codec parse drawing false true
          (some zeros)
          true
          true
          agent).1.store.disk.content
        ≡ written codec
            (dashboard_data codec parse drawing false true
              (some zeros)
              true
              true
              agent).1.store.cfg)
unfolding tailclip.Config.Settings.mode dashboard_data tailclip.Base.same
    tailclip.Config.Store.update tailclip.Agent.Dashboard.data_change
    tailclip.Config.Settings.rotate_token tailclip.Config.Settings.generate_token
    tailclip.Config.File.save tailclip.Config.Settings.validate tailclip.Base.trim_space
    tailclip.Base.contains_any tailclip.Config.Settings.valid_token tailclip.Config.Base64.decode
    encode tailclip.Config.Base64.encode_digit tailclip.Config.Base64.decode_digit
    tailclip.Pairing.create tailclip.Agent.Dashboard.session_data
    tailclip.Agent.Dashboard.stored_data tailclip.Base.Map.delete tailclip.Base.Map.keep
    tailclip.Base.Map.put tailclip.Base.strip_prefix tailclip.Base.to_lower
    tailclip.Base.trim_suffix tailclip.Config.Store.changed tailclip.Config.Store.saved
    tailclip.Pairing.check_url tailclip.Pairing.validate_data tailclip.Tailscale.base_url
dashboard_data-rotates_example =
    dashboard_data-rotates codec parse drawing false (some zeros) true true agent node shown refl
      refl refl

are_bytes : Bytes → Bool
are_bytes [] = true
are_bytes (c ∷ s) = ltb c 256 && are_bytes s

all_bytes : (s : Bytes) → are_bytes s ≡ true → AreBytes s
unfolding are_bytes
all_bytes [] h = tt
all_bytes (c ∷ s) h = (ground arith, all_bytes s (ground arith))

abbrev shown_agent : Agent
shown_agent = (dashboard_data codec parse drawing false true (some zeros) true true agent).1

dashboard_data-Opens_example : Opens codec node drawing.now zeros assets shown shown_agent
unfolding are_bytes tailclip.Config.Settings.mode dashboard_data tailclip.Base.same
    tailclip.Config.Store.update tailclip.Agent.Dashboard.data_change
    tailclip.Config.Settings.rotate_token tailclip.Config.Settings.generate_token
    tailclip.Config.File.save tailclip.Config.Settings.validate tailclip.Base.trim_space
    tailclip.Base.contains_any tailclip.Config.Settings.valid_token tailclip.Config.Base64.decode
    encode tailclip.Config.Base64.encode_digit tailclip.Config.Base64.decode_digit
    tailclip.Pairing.create tailclip.Agent.Dashboard.session_data
    tailclip.Agent.Dashboard.stored_data tailclip.Base.Map.delete tailclip.Base.Map.keep
    tailclip.Base.Map.put tailclip.Base.strip_prefix tailclip.Base.to_lower
    tailclip.Base.trim_suffix tailclip.Config.Store.changed tailclip.Config.Store.saved
    tailclip.Pairing.check_url tailclip.Pairing.validate_data tailclip.Tailscale.base_url
dashboard_data-Opens_example =
    dashboard_data-Opens codec parse drawing zeros (all_bytes zeros refl) refl assets true true true
      agent node shown refl refl refl
