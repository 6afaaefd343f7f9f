-- ===== src/Agent/Routes.antt =====
-- internal/agent/agent.go: the routes that `New` registers, with `shutdown`, `openSetup` and
-- `controlAuthorized`. What a request does to the agent's state is one step, but for the API's route:
-- the settings may change between the check of the mode and the API's own service. The cleaning of paths by `ServeMux` is left out. The wording of the dashboard's
-- messages is a parameter.
use tailclip.Base.{
  ℕ, Bool, true, not, ◌&&◌, ◌||◌, Option, none, some, Bytes, bytes, same, has_prefix, if◌then◌else◌,
  Result, ok, err, String,
}
use tailclip.Http.{Request, Parsers, get_header, bearer_matches, request_is_local}
use tailclip.Clipboard.{Backend, synchronized}
use tailclip.Config.File.{Codec}
use tailclip.Pairing.{Url}
use tailclip.Api
use tailclip.Api.{OwnerIdentity, State}
use tailclip.Api.Handlers.{serve}
use tailclip.Tailscale.{TailscaleError, Status, owner_login}
use tailclip.Webui.{Assets, Page, public_setup}
use tailclip.Webui
use tailclip.Webui.Dashboard.{DashboardData, Host, HostError, open_dashboard}
use tailclip.Agent.{Agent, Surroundings, current_mode}
use tailclip.Agent.Dashboard.{Shown, Notice, DataError, dashboard_data}

-- What the process serves with: the agent, its dashboard, and the API with the clipboard behind it.
pub record Process (S : Type 0) : Type 0 where
  pub agent : Agent
  pub host : Host
  pub api : State S

pub data Answer : Type 0 where
  api_answer : Api.Response → Answer
  setup_answer : Page → Answer
  control_error : (status : ℕ) (message : String) → Answer
  stopping : Answer
  dashboard_at : (id : Bytes) → Answer
  no_dashboard : HostError → Answer
  not_found : Answer

unfoldable pub control_authorized : Agent → Request → Bool
control_authorized a r =
    bearer_matches (get_header (bytes "Authorization") r.header) a.store.cfg.pairing_token

-- The owner that the API asks for: the login and the name of this node.
unfoldable pub owner_of : Result TailscaleError Status → Option (Bytes × Bytes)
owner_of (err e) = none
owner_of (ok s) = elim (owner_login s) [ err e ↦ none | ok login ↦ some (login, s.dns_name) ]

unfoldable pub may_control : Parsers → Agent → Request → Bool
unfolding control_authorized
may_control p a r = request_is_local p r && control_authorized a r

unfoldable pub shutdown : {S : Type 0} → Parsers → Request → Process S → Answer × Process S
unfolding may_control
shutdown p r w =
    if not (same r.method (bytes "POST")) || not (may_control p w.agent r)
    then (control_error 403 "只允許這台電腦停止 Agent。", w)
    else (stopping, record w { agent = record (w.agent) { stopped = true } })

-- What a dashboard needs besides the agent: the wording of its messages, and whether a change of the
-- connection holds the lock, the listener can be opened and the shortcuts are built in.
pub record Texts : Type 0 where
  pub notice : Notice → Bytes
  pub problem : DataError → Bytes

pub record Dials : Type 0 where
  pub busy : Bool
  pub port : Bool
  pub clipboard_available : Bool
  pub id_bits : Option Bytes
  pub nonce_bits : Option Bytes

worded : Texts → Shown → DashboardData
worded t d = record {
  mode = d.mode;
  message = t.notice d.notice;
  simple_paired = d.simple_paired;
  device_name = d.device_name;
  dns_name = d.dns_name;
  pairing_url = d.pairing_url;
  expires_at = d.expires_at;
  clipboard_available = d.clipboard_available;
  shortcuts_ready = d.shortcuts_ready;
}

module _ (codec : Codec) (parse_url : Bytes → Option Url) (p : Parsers) (texts : Texts)
    (assets : Assets) (e : Surroundings) (dials : Dials) {S : Type 0} (b : Backend S) where
  unfoldable pub worded_data : Result DataError Shown × Agent → Result Bytes DashboardData × Agent
  unfolding worded
  worded_data (err x, a) = (err (texts.problem x), a)
  worded_data (ok d, a) = (ok (worded texts d), a)

  -- `dashboardData`, as the provider of the dashboard.
  unfoldable pub provider : Bool → Agent → Result Bytes DashboardData × Agent
  unfolding worded_data
  provider rotate a = worded_data (
      dashboard_data codec parse_url e dials.busy rotate dials.nonce_bits dials.clipboard_available
        (Webui.ready assets) a)

  unfoldable pub opened_setup :
      Process S → Result HostError Bytes × Host × Agent → Answer × Process S
  opened_setup w (err x, h, a) = (no_dashboard x, record w { agent = a; host = h })
  opened_setup w (ok id, h, a) = (dashboard_at id, record w { agent = a; host = h })

  unfoldable pub open_setup : Request → Process S → Answer × Process S
  unfolding opened_setup may_control
  open_setup r w =
      if not (same r.method (bytes "POST"))
      then (control_error 405 "這個操作只接受 POST。", w)
      else if not (may_control p w.agent r)
      then (control_error 403 "只允許這台電腦開啟設定頁。", w)
      else opened_setup w (open_dashboard provider e.now dials.id_bits dials.port w.host w.agent)

  unfoldable pub setup_pages : Request → Process S → Answer × Process S
  setup_pages r w =
      let (page, m) = public_setup e.now assets r w.agent.pairing in
      if not (same (current_mode w.agent) (bytes "tailscale"))
      then (not_found, w)
      else (setup_answer page, record w { agent = record (w.agent) { pairing = m } })

  abbrev pub api_options : Api.Options S
  api_options = record {
    clipboard = synchronized b;
    owner = some (λ ctx. owner_of e.tailnet);
    rate_limit = 0;
    rate_window = 0;
  }

  -- Whether a request goes on to the API, by a snapshot of the settings.
  unfoldable pub admits : Request → Agent → Bool
  admits r a = same r.path (bytes "/v1/health") || same (current_mode a) (bytes "tailscale")

  -- No lock is held from that check on: `checked` is the agent at the check, and the process is what
  -- it has become when the API serves the request.
  unfoldable pub api_pages : (checked : Agent) → Request → Process S → Answer × Process S
  unfolding admits
  api_pages checked r w =
      let (response, st) = serve p w.agent.store.cfg api_options e.now r w.api in
      if not (admits r checked)
      then (control_error 403 "目前未啟用 Tailscale 入口。", w)
      else (api_answer response, record w { api = st })

  -- The routes of `New`.
  unfoldable pub route : (checked : Agent) → Request → Process S → Answer × Process S
  unfolding api_pages
  route checked r w =
      if same r.path (bytes "/local/open-setup")
      then open_setup r w
      else if same r.path (bytes "/local/shutdown")
      then shutdown p r w
      else if has_prefix r.path (bytes "/setup/")
      then setup_pages r w
      else api_pages checked r w

  -- A request during which the settings stay as they are.
  unfoldable pub handle : Request → Process S → Answer × Process S
  unfolding route
  handle r w = route w.agent r w
