-- ===== src/Command/Opening.antt =====
-- cmd/tailblink/main.go against internal/agent/agent.go and internal/webui/dashboard_host.go: the
-- address that the browser is started with, where the agent's own handler answers the command.
use tailclip.Base.{
  ℕ, ◌≡◌, ◌≢◌, ◌⊎◌, refl, inl, inr, sym, ap, subst, ◌∙◌, Bool, true, false, not, ◌&&◌, Option, none,
  some, List, [], ◌∷◌, ◌++◌, Bytes, bytes, arith, same, is_some, trim_prefix, Bool-cases, Result,
  ok, err, String, if◌then◌else◌, trim_space, is_empty,
}
use tailclip.Base.Map.{get, get-put_self}
use tailclip.Config.Base64.{encode}
use tailclip.Http.{Parsers, bearer, bearer_matches, bearer_matches_iff}
use tailclip.Clipboard.{Backend}
use tailclip.Config.Settings.{Config}
use tailclip.Config.File.{Codec}
use tailclip.Pairing.{Url}
use tailclip.Webui.{Assets}
use tailclip.Webui.Dashboard.{
  Host, HostError, no_random, Entry, DashboardData, open_dashboard, opened,
}
use tailclip.Agent.{Agent, Surroundings}
use tailclip.Agent.Routes
use tailclip.Agent.Routes.{
  Process, Texts, Dials, Answer, handle, open_setup, opened_setup, provider, may_control,
}
use tailclip.Command
use tailclip.Command.{
  CommandError, Opened, local_prefix, control_request, open_settings, address_of, not_opened,
}
use tailclip.Command.Control.{arrives, status_of, KnowsLoopback, may_control-token, bearer_inj}

-- What `listener.Addr()` gives: `DashboardAddress` is an address of the loopback interface, and the
-- listener has the port that is written there.
abbrev listener_address : (port : Bytes) → Bytes
listener_address port = bytes "127.0.0.1:" ++ port

-- The address that `Open` returns.
abbrev pub dashboard_url : (port id : Bytes) → Bytes
dashboard_url port id = bytes "http://" ++ (listener_address port ++ (bytes "/dashboard/" ++ id))

-- An answer of the agent as the command decodes it. `utf8` encodes a text, and `problem` words an error.
pub opening : (port : Bytes) → (String → Bytes) → (HostError → Bytes) → Answer → Opened
opening port utf8 problem (Routes.dashboard_at id) = record {
  code = 200;
  body = some (true, dashboard_url port id, []);
}
opening port utf8 problem (Routes.control_error status message) = record {
  code = status;
  body = some (false, [], utf8 message);
}
opening port utf8 problem (Routes.no_dashboard e) = record {
  code = 503;
  body = some (false, [], problem e);
}
opening port utf8 problem answer = record { code = status_of answer; body = none }

module _ (codec : Codec) (parse_url : Bytes → Option Url) (p : Parsers) (texts : Texts)
    (assets : Assets) (e : Surroundings) (dials : Dials) {S : Type 0} (b : Backend S)
    (remote : Bytes) (knows : KnowsLoopback p remote) where
  abbrev asked_to_open : Bytes → Process S → Answer × Process S
  asked_to_open token w =
      handle codec parse_url p texts assets e dials b
        (arrives remote (control_request (bytes "/local/open-setup") token)) w

  -- A dashboard that was opened is an entry of the host.
  abbrev IsHeld : Answer × Process S → Type 0
  IsHeld (answer, w) =
      ((id : Bytes) × (answer ≡ Routes.dashboard_at id) × (is_some (get id w.host.entries) ≡ true))
      ⊎ ((x : HostError) × (answer ≡ Routes.no_dashboard x))

  opened_setup-IsHeld :
      (w : Process S) (now : ℕ) (bits : Option Bytes) (port : Bool) (h : Host)
      (r : Result Bytes DashboardData × Agent)
      → IsHeld (
          opened_setup codec parse_url p texts assets e dials b w
            (opened (provider codec parse_url p texts assets e dials b) now bits port h r))
  unfolding opened_setup opened
  opened_setup-IsHeld w now bits port h (err x, a) = inr (_, refl)
  opened_setup-IsHeld w now none port h (ok d, a) = inr (_, refl)
  opened_setup-IsHeld w now (some raw) port h (ok d, a) =
      elim (Bool-cases (not h.listening && not port)) [
        | inl no_listener ↦ rw no_listener (inr (_, refl))
        | inr listens ↦
            let entry : Entry = record { contents = d; operation_error = [] } in
            rw listens
              (inl (encode raw, refl, ap is_some (get-put_self (encode raw) entry h.entries)))
      ]

  open_setup-IsHeld :
      (token : Bytes) (w : Process S)
      → bearer_matches (bearer token) w.agent.store.cfg.pairing_token ≡ true
      → IsHeld (asked_to_open token w)
  unfolding handle tailclip.Agent.Routes.route open_setup open_dashboard same trim_prefix
      tailclip.Base.strip_prefix
  open_setup-IsHeld token w h =
      rw
        (
          may_control-token codec parse_url p texts assets e dials b remote knows
              (bytes "/local/open-setup") token w.agent,
          h,
          open_setup,
        )
        (opened_setup-IsHeld w e.now dials.id_bits dials.port w.host _)

  open_setup_refused :
      (token : Bytes) (w : Process S)
      → bearer_matches (bearer token) w.agent.store.cfg.pairing_token ≡ false
      → asked_to_open token w ≡ (Routes.control_error 403 "只允許這台電腦開啟設定頁。", w)
  unfolding handle tailclip.Agent.Routes.route open_setup same trim_prefix
      tailclip.Base.strip_prefix
  open_setup_refused token w h =
      rw
        (
          may_control-token codec parse_url p texts assets e dials b remote knows
              (bytes "/local/open-setup") token w.agent,
          h,
          open_setup,
        )
        refl

  module _ (port : Bytes) (utf8 : String → Bytes) (problem : HostError → Bytes) where
    abbrev run_command : Config → Process S → (Bytes → Bool) → Command.Done × List Bytes
    run_command cfg w open_url =
        open_settings (ok tt) (ok cfg)
          (λ q. some (
            opening port utf8 problem
              (handle codec parse_url p texts assets e dials b (arrives remote q) w).0))
          open_url

    -- How the command ends, and with what addresses the browser was started.
    abbrev pub Agreement : Config → Process S → (Bytes → Bool) → Type 0
    Agreement cfg w open_url =
        let (report, urls) = run_command cfg w open_url in
        let after = (asked_to_open cfg.pairing_token w).1 in
        ((cfg.pairing_token ≡ w.agent.store.cfg.pairing_token)
          × ((id : Bytes) × (urls ≡ dashboard_url port id ∷ [])
              × (is_some (get id after.host.entries) ≡ true)
              × (report ≡ (if open_url (dashboard_url port id) then ok tt else err not_opened))))
        ⊎ ((report ≢ ok tt) × (urls ≡ []))

    told : Answer → Config → (Bytes → Bool) → Command.Done × List Bytes
    told a cfg open_url =
        open_settings (ok tt) (ok cfg) (λ _. some (opening port utf8 problem a)) open_url

    told-dashboard :
        (id : Bytes) (cfg : Config) (open_url : Bytes → Bool)
        → told (Routes.dashboard_at id) cfg open_url ≡ (
          if open_url (dashboard_url port id) then ok tt else err not_opened,
          dashboard_url port id ∷ [],
        )
    unfolding told open_settings address_of opening tailclip.Base.strip_prefix
    told-dashboard id cfg open_url = refl

    told-error :
        (status : ℕ) (message : String) (x : HostError) (cfg : Config) (open_url : Bytes → Bool)
        → (((told (Routes.control_error status message) cfg open_url).0 ≢ ok tt)
            × ((told (Routes.control_error status message) cfg open_url).1 ≡ []))
          × (((told (Routes.no_dashboard x) cfg open_url).0 ≢ ok tt)
              × ((told (Routes.no_dashboard x) cfg open_url).1 ≡ []))
    unfolding told open_settings address_of opening
    told-error status message x cfg open_url =
        (((λ h. ground arith), ground arith), ((λ h. ground arith), ground arith))

    opened_run :
        (cfg : Config) (w : Process S) (open_url : Bytes → Bool)
        → cfg.pairing_token ≡ w.agent.store.cfg.pairing_token
        → IsHeld (asked_to_open cfg.pairing_token w)
        → Agreement cfg w open_url
    unfolding told open_settings
    opened_run cfg w open_url same_token (inl (id, answered, held)) =
        let ran = ap (λ a. told a cfg open_url) answered ∙ told-dashboard id cfg open_url in
        inl (same_token, (id, ap (λ x. x.1) ran, held, ap (λ x. x.0) ran))
    opened_run cfg w open_url same_token (inr (x, answered)) = inr (
        subst (λ a. ((told a cfg open_url).0 ≢ ok tt) × ((told a cfg open_url).1 ≡ []))
          (sym answered) (told-error 0 "" x cfg open_url).1)

    -- A command that found the agent running, and loaded settings, agrees with it about the settings'
    -- page: the browser is started only where the command has the token of the agent's settings, at
    -- most once, and with the address of an entry that the dashboard then holds; the command then
    -- reports success exactly if the browser could be started. In every other case the browser is
    -- not started, and the command reports an error. Addresses are read as the standard library
    -- does, and the agent is reached through the loopback interface.
    pub open_settings-Agreement :
        (cfg : Config) (w : Process S) (open_url : Bytes → Bool) → Agreement cfg w open_url
    unfolding told open_settings
    open_settings-Agreement cfg w open_url =
        let token = cfg.pairing_token in
        let expected = w.agent.store.cfg.pairing_token in
        elim (Bool-cases (bearer_matches (bearer token) expected)) [
          | inl h ↦
              opened_run cfg w open_url
                (bearer_inj token expected ((bearer_matches_iff (bearer token) expected).0 h))
                (open_setup-IsHeld token w h)
          | inr h ↦
              let message : String = "只允許這台電腦開啟設定頁。" in
              inr (
                subst (λ a. ((told a.0 cfg open_url).0 ≢ ok tt) × ((told a.0 cfg open_url).1 ≡ []))
                  (sym (open_setup_refused token w h))
                  (told-error 403 message no_random cfg open_url).0)
        ]
