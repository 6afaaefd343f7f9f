-- ===== src/Command/Control.antt =====
-- cmd/tailblink/main.go against internal/agent/agent.go: what the command asks of the running agent, as
-- the agent's own handler answers it.
use tailclip.Base.{
  ℕ, ◌≡◌, ◌≢◌, ◌⊎◌, refl, inl, inr, sym, ap, ◌∙◌, Bool, true, false, Option, none, some, [], ◌∷◌,
  ◌++◌, Bytes, bytes, arith, same, same_iff, strip_prefix, strip_prefix-append, trim_prefix,
  Bool-cases, if◌then◌else◌, Result, ok, err,
}
use tailclip.Http.{
  Request, Parsers, bearer, bearer_matches, bearer_matches_iff, request_is_local, get_header,
  values, first,
}
use tailclip.Clipboard.{Backend}
use tailclip.Config.Settings.{Config}
use tailclip.Config.File.{Codec}
use tailclip.Pairing.{Url}
use tailclip.Webui
use tailclip.Webui.{Assets, Page}
use tailclip.Agent.{Agent, Surroundings}
use tailclip.Agent.Routes
use tailclip.Agent.Routes.{
  Process, Texts, Dials, Answer, handle, shutdown, may_control, control_authorized,
}
use tailclip.Command
use tailclip.Command.{CommandError, status_code, agent_url, control_request, stop_agent}

-- A command's request as it reaches the agent; `remote` is the address that it comes from. The
-- headers that no handler reads are left out.
abbrev pub arrives : (remote : Bytes) → Command.Request → Request
arrives remote q = record {
  method = q.method;
  path = trim_prefix q.url agent_url;
  host = bytes "127.0.0.1:17733";
  remote_addr = remote;
  header = (bytes "Authorization", q.authorization) ∷ [];
  body = [];
  broken = false;
  ctx = none;
}

page_status : Page → ℕ
page_status (Webui.plain status message) = status
page_status Webui.not_found = 404
page_status Webui.expired = 404
page_status (Webui.setup_page session ready) = 200
page_status (Webui.shortcut_file contents name) = 200

pub status_of : Answer → ℕ
unfolding page_status
status_of (Routes.api_answer r) = r.status
status_of (Routes.setup_answer page) = page_status page
status_of (Routes.control_error status message) = status
status_of Routes.stopping = 200
status_of (Routes.dashboard_at id) = 200
status_of (Routes.no_dashboard e) = 503
status_of Routes.not_found = 404

-- `net.SplitHostPort` and `net.ParseIP` on the addresses of this computer.
pub record KnowsLoopback (p : Parsers) (remote : Bytes) : Type 0 where
  pub remote_host : p.split_host remote ≡ some (bytes "127.0.0.1")
  pub own_host : p.split_host (bytes "127.0.0.1:17733") ≡ some (bytes "127.0.0.1")
  pub loopback : p.is_loopback (bytes "127.0.0.1") ≡ true

pub bearer_inj : (a b : Bytes) → bearer a ≡ bearer b → a ≡ b
bearer_inj a b h = ground (
  arith,
  strip_prefix-append (bytes "Bearer ") a,
  strip_prefix-append (bytes "Bearer ") b,
  ap (strip_prefix (bytes "Bearer ")) h,
)

module _ (codec : Codec) (parse_url : Bytes → Option Url) (p : Parsers) (texts : Texts)
    (assets : Assets) (e : Surroundings) (dials : Dials) {S : Type 0} (b : Backend S)
    (remote : Bytes) (knows : KnowsLoopback p remote) where
  abbrev answered : Bytes → Bytes → Process S → Answer × Process S
  answered path token w =
      handle codec parse_url p texts assets e dials b (arrives remote (control_request path token))
        w

  shutdown_request :
      (token : Bytes) (w : Process S)
      → answered (bytes "/local/shutdown") token w
        ≡ shutdown p (arrives remote (control_request (bytes "/local/shutdown") token)) w
  unfolding handle tailclip.Agent.Routes.route same trim_prefix tailclip.Base.strip_prefix
  shutdown_request token w = refl

  pub may_control-token :
      (path token : Bytes) (a : Agent)
      → may_control p a (arrives remote (control_request path token))
        ≡ bearer_matches (bearer token) a.store.cfg.pairing_token
  unfolding may_control control_authorized request_is_local get_header values first same
      tailclip.Http.trim_brackets
  may_control-token path token a = ground (arith, knows.remote_host, knows.own_host, knows.loopback)

  abbrev expected : Process S → Bytes
  expected w = w.agent.store.cfg.pairing_token

  abbrev asked_to_stop : Bytes → Process S → Answer × Process S
  asked_to_stop token w = answered (bytes "/local/shutdown") token w

  stopped_answer :
      (token : Bytes) (w : Process S)
      → bearer_matches (bearer token) (expected w) ≡ true
      → asked_to_stop token w
        ≡ (Routes.stopping, record w { agent = record (w.agent) { stopped = true } })
  unfolding shutdown same
  stopped_answer token w h =
      shutdown_request token w
      ∙ rw (may_control-token (bytes "/local/shutdown") token w.agent, h, shutdown) refl

  refused_answer :
      (token : Bytes) (w : Process S)
      → bearer_matches (bearer token) (expected w) ≡ false
      → asked_to_stop token w ≡ (Routes.control_error 403 "只允許這台電腦停止 Agent。", w)
  unfolding shutdown same
  refused_answer token w h =
      shutdown_request token w
      ∙ rw (may_control-token (bytes "/local/shutdown") token w.agent, h, shutdown) refl

  -- A command that loaded settings agrees with the agent about stopping: with the token of the
  -- agent's settings the command reports success and the agent is stopped; with any other token the
  -- command reports the status 403, and nothing of the agent changes. Addresses are read as the
  -- standard library does, and the agent is reached through the loopback interface.
  pub stop_agent-agrees :
      (cfg : Config) (w : Process S)
      → let report = stop_agent (ok cfg) (λ q.
        some
          (status_of (handle codec parse_url p texts assets e dials b (arrives remote q) w).0)) in
        let after = (answered (bytes "/local/shutdown") cfg.pairing_token w).1 in
        ((cfg.pairing_token ≡ w.agent.store.cfg.pairing_token)
          × (report ≡ ok tt)
          × (after.agent.stopped ≡ true))
        ⊎ ((cfg.pairing_token ≢ w.agent.store.cfg.pairing_token)
            × (report ≡ err (status_code 403))
            × (after ≡ w))
  unfolding stop_agent status_of
  stop_agent-agrees cfg w =
      let token = cfg.pairing_token in
      elim (Bool-cases (bearer_matches (bearer token) (expected w))) [
        | inl h ↦ inl (
          bearer_inj token (expected w) ((bearer_matches_iff (bearer token) (expected w)).0 h),
          rw (stopped_answer token w h) refl,
          rw (stopped_answer token w h) refl,
        )
        | inr h ↦ inr (
          λ same_token. absurd (
              ground
                (arith, (bearer_matches_iff (bearer token) (expected w)).1 (ap bearer same_token))),
          rw (refused_answer token w h) refl,
          rw (refused_answer token w h) refl,
        )
      ]
