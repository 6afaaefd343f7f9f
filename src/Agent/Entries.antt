-- ===== src/Agent/Entries.antt =====
-- What the routes of the agent let through.
use tailclip.Base.{
  ℕ, ◌≡◌, refl, ap, sym, ◌∙◌, ◌⊎◌, inl, inr, Bool, true, false, Option, arith, Bytes, bytes, same,
  same_iff, Result-cases, Result, ok, err,
}
use tailclip.Http.{Request, Parsers, get_header, bearer, bearer_matches_iff, request_is_local}
use tailclip.Clipboard.{Backend, synchronized}
use tailclip.Simple.{Service, new_service}
use tailclip.Simple.Serve.{PairParsers, serve_http}
use tailclip.Simple.Interleaving.{serve_buffered_guard}
use tailclip.Config.Settings.{Config, ConfigError}
use tailclip.Config.File.{Codec}
use tailclip.Config.Store.{Store, update}
use tailclip.Api.{State}
use tailclip.Api.Handlers.{serve}
use tailclip.Pairing.{Url, Session, Manager, PairingError}
use tailclip.Tailscale.{Status}
use tailclip.Webui.{Assets, ready}
use tailclip.Webui.Dashboard.{DashboardData, Host, HostError, opened, open_dashboard}
use tailclip.Agent.{Agent, Surroundings, current_mode, entry_of}
use tailclip.Agent.Modes.{IsExclusive, entry_active}
use tailclip.Agent.Dashboard.{
  DataError, session_data, stored_data, Shown, dashboard_data, data_change, device_of,
}
use tailclip.Agent.Routes.{
  api_options, worded_data, opened_setup, Process, Texts, Dials, provider, may_control,
  control_authorized, shutdown, open_setup, setup_pages, api_pages, admits, route, handle,
}

module _ (codec : Codec) (parse_url : Bytes → Option Url) (p : Parsers) (texts : Texts)
    (assets : Assets) (e : Surroundings) (dials : Dials) {S : Type 0} (b : Backend S) where
  opened_setup-keeps :
      (w : Process S) (o : Result HostError Bytes × Host × Agent)
      → ((opened_setup codec parse_url p texts assets e dials b w o).1.api ≡ w.api)
        × ((opened_setup codec parse_url p texts assets e dials b w o).1.agent ≡ o.2)
  unfolding opened_setup
  opened_setup-keeps w (err x, h, a) = (refl, refl)
  opened_setup-keeps w (ok id, h, a) = (refl, refl)

  session_data-stopped :
      (s : Status) (available ready : Bool) (a : Agent)
      (c : Result PairingError (Session × Manager))
      → (session_data codec parse_url e s available ready a c).1.stopped ≡ a.stopped
  unfolding session_data
  session_data-stopped s available ready a (err x) = refl
  session_data-stopped s available ready a (ok (session, m)) = refl

  stored_data-stopped :
      (bits : Option Bytes) (s : Status) (available ready : Bool) (a : Agent)
      (u : Result ConfigError (Unit {0}) × Store)
      → (stored_data codec parse_url e bits s available ready a u).1.stopped ≡ a.stopped
  unfolding stored_data
  stored_data-stopped bits s available ready a (err x, store) = refl
  stored_data-stopped bits s available ready a (ok _, store) =
      session_data-stopped s available ready (record a { store = store }) _

  dashboard_data-stopped :
      (busy rotate : Bool) (bits : Option Bytes) (available ready : Bool) (a : Agent)
      → (dashboard_data codec parse_url e busy rotate bits available ready a).1.stopped ≡ a.stopped
  unfolding dashboard_data
  dashboard_data-stopped busy rotate bits available ready a = elim (Result-cases e.tailnet) [
    | inl (s, h) ↦ ground (
      arith,
      stored_data-stopped bits s available ready a
          (update codec e.faults (data_change (device_of s) rotate e.bits) a.store),
    )
    | inr (x, h) ↦ ground arith
  ]

  worded_data-agent :
      (o : Result DataError Shown × Agent)
      → (worded_data codec parse_url p texts assets e dials b o).1 ≡ o.1
  unfolding worded_data
  worded_data-agent (err x, a) = refl
  worded_data-agent (ok d, a) = refl

  opened-agent :
      (o : Result Bytes DashboardData × Agent) (h : Host)
      → (opened
          (provider codec parse_url p texts assets e dials b)
          e.now
          dials.id_bits
          dials.port
          h
          o).2
        ≡ o.1
  unfolding opened
  opened-agent (err x, a) h = refl
  opened-agent (ok d, a) h = ground arith

  open_dashboard-stopped :
      (h : Host) (a : Agent)
      → (open_dashboard
          (provider codec parse_url p texts assets e dials b)
          e.now
          dials.id_bits
          dials.port
          h
          a).2.stopped
        ≡ a.stopped
  unfolding open_dashboard provider
  open_dashboard-stopped h a =
      let o : Result DataError Shown × Agent =
        dashboard_data codec parse_url e dials.busy false dials.nonce_bits dials.clipboard_available
          (ready assets) a in
      ap (λ (x : Agent). x.stopped)
        (opened-agent (worded_data codec parse_url p texts assets e dials b o) h
          ∙ worded_data-agent o)
      ∙ dashboard_data-stopped dials.busy false dials.nonce_bits dials.clipboard_available
          (ready assets) a

  open_setup-keeps :
      (r : Request) (w : Process S)
      → ((open_setup codec parse_url p texts assets e dials b r w).1.api ≡ w.api)
        × ((open_setup codec parse_url p texts assets e dials b r w).1.agent.stopped
            ≡ w.agent.stopped)
  unfolding open_setup
  open_setup-keeps r w =
      let o : Result HostError Bytes × Host × Agent =
        open_dashboard (provider codec parse_url p texts assets e dials b) e.now dials.id_bits
          dials.port w.host w.agent in
      ground (arith, opened_setup-keeps w o, open_dashboard-stopped w.host w.agent)

  health-desktop :
      (r : Request) (c : Config) (st : State S)
      → r.path ≡ bytes "/v1/health"
      → (serve p c (api_options codec parse_url p texts assets e dials b) e.now r st).1 ≡ st
  unfolding serve same
  health-desktop r c st h = rw h

  api_pages-desktop :
      (checked : Agent) (r : Request) (w : Process S)
      → ((api_pages codec parse_url p texts assets e dials b checked r w).1.api.desktop
          ≡ w.api.desktop)
        ⊎ (current_mode checked ≡ bytes "tailscale")
  unfolding api_pages admits
  api_pages-desktop checked r w = ground (
    arith,
    same_iff r.path (bytes "/v1/health"),
    same_iff (current_mode checked) (bytes "tailscale"),
    health-desktop r w.agent.store.cfg w.api,
  )

  is_inactive :
      (a : Agent)
      → IsExclusive a
      → current_mode a ≡ bytes "tailscale"
      → entry_active a.entry ≡ false
  is_inactive a (inl h) m = h
  is_inactive a (inr h) m = let both = sym h ∙ m in absurd (ground arith)

  route-desktop :
      (checked : Agent) (r : Request) (w : Process S)
      → ((route codec parse_url p texts assets e dials b checked r w).1.api.desktop ≡ w.api.desktop)
        ⊎ (current_mode checked ≡ bytes "tailscale")
  unfolding route shutdown setup_pages
  route-desktop checked r w = ground (arith, open_setup-keeps r w, api_pages-desktop checked r w)

  -- What a request of the phone to the simple entry may do to the clipboard.
  phone-desktop :
      (pairs : PairParsers) (before : Service) (now : ℕ) (raw : Option Bytes) (r : Request)
      (s : Service) (d : S)
      → ((serve_http pairs (synchronized b) before now raw r s d).2 ≡ d) ⊎ (s.active ≡ true)
  unfolding serve_http
  phone-desktop pairs before now raw r s d =
      ground (arith, serve_buffered_guard pairs (synchronized b) now raw r s d)

  entry_of-mode :
      (a : Agent)
      → IsExclusive a
      → (entry_of codec e a).active ≡ true
      → current_mode a ≡ bytes "simple"
  unfolding entry_of new_service
  entry_of-mode a h k = ground arith

  -- The mode decides by which entry the clipboard can be reached. Take a moment at which the simple
  -- entry is active only if the settings name it. A request to the agent that is let through then
  -- changes the clipboard, now or whatever the process has become when the API serves it, only if at
  -- that moment the mode was Tailscale and the simple entry inactive. A request to the simple entry
  -- that is served at that moment, however it was admitted before, changes it only if the mode is the
  -- simple one.
  pub route-one_entry :
      (pairs : PairParsers) (checked : Agent) (r q : Request) (w : Process S) (before : Service)
      (now : ℕ) (raw : Option Bytes)
      → IsExclusive checked
      → (((route codec parse_url p texts assets e dials b checked r w).1.api.desktop
            ≡ w.api.desktop)
          ⊎ ((entry_active checked.entry ≡ false) × (current_mode checked ≡ bytes "tailscale")))
        × (((serve_http pairs
                (synchronized b)
                before
                now
                raw
                q
                (entry_of codec e checked)
                w.api.desktop).2
              ≡ w.api.desktop)
            ⊎ (current_mode checked ≡ bytes "simple"))
  route-one_entry pairs checked r q w before now raw h = (
    ground (arith, route-desktop checked r w, is_inactive checked h),
    ground (
      arith,
      phone-desktop pairs before now raw q (entry_of codec e checked) w.api.desktop,
      entry_of-mode checked h,
    ),
  )

  -- The agent is stopped only by a POST from this computer to this computer that carries the token.
  pub handle-stopped :
      (r : Request) (w : Process S)
      → w.agent.stopped ≡ false
      → (handle codec parse_url p texts assets e dials b r w).1.agent.stopped ≡ true
      → (r.path ≡ bytes "/local/shutdown")
        × (r.method ≡ bytes "POST")
        × (request_is_local p r ≡ true)
        × (get_header (bytes "Authorization") r.header ≡ bearer w.agent.store.cfg.pairing_token)
  unfolding handle route shutdown setup_pages api_pages may_control control_authorized
  handle-stopped r w h k = ground (
    arith,
    open_setup-keeps r w,
    same_iff r.path (bytes "/local/shutdown"),
    same_iff r.method (bytes "POST"),
    bearer_matches_iff (get_header (bytes "Authorization") r.header)
        w.agent.store.cfg.pairing_token,
  )
