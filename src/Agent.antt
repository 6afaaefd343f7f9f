-- ===== src/Agent.antt =====
-- internal/agent/agent.go: the agent's state and `configureConnection`. The mutex `modeMu` makes a
-- call one step of the agent; what the simple entry serves in between is in Simple/Interleaving.antt.
pub mod Modes
pub mod Dashboard
pub mod Routes
pub mod Entries
pub mod Rotation
pub mod Showing
pub mod Setup
pub mod Run
use tailclip.Base.{
  ℕ, Bool, true, false, not, ◌&&◌, ◌||◌, Option, none, some, List, [], ◌∷◌, ◌++◌, Bytes, bytes,
  same, if◌then◌else◌, Result, ok, err, String,
}
use tailclip.Config.Settings.{Config, ConfigError, mode}
use tailclip.Config.File.{Codec, Faults}
use tailclip.Config.Store.{Store, update}
use tailclip.Pairing.{Manager, new_manager}
use tailclip.Simple
use tailclip.Simple.{
  Service, Ticket, SimpleError, new_service, set_active, is_paired, pairing_pending, new_pairing,
  close, revoke,
}
use tailclip.Simple.Start.{Conditions, start}
use tailclip.Tailscale.{TailscaleError, not_installed, not_running, Status}

pub data AgentError : Type 0 where
  setup_failed : (message : String) → AgentError
  prepare_failed not_stored unsupported : AgentError
  simple_failed : SimpleError → AgentError
  config_failed : ConfigError → AgentError

-- `entry` is the field `simple`, and `shown` the field `simplePairing`, `none` for its zero value.
pub record Agent : Type 0 where
  pub store : Store
  pub pairing : Manager
  pub entry : Option Service
  pub shown : Option Ticket
  pub stopped : Bool

unfoldable pub new_agent : Store → Agent
new_agent store = record {
  store = store;
  pairing = new_manager;
  entry = none;
  shown = none;
  stopped = false;
}

-- What a call meets: the answer of Tailscale, that of the platform's preparation if there is one
-- (`some true` is a success), the failing calls of a save, the conditions of a start of the simple
-- entry, the random bytes of the call, and the time.
pub record Surroundings : Type 0 where
  pub tailnet : Result TailscaleError Status
  pub prepare : Option Bool
  pub faults : Faults
  pub conditions : Conditions
  pub bits : Option Bytes
  pub now : ℕ

unfoldable pub user_setup_error : TailscaleError → String
user_setup_error not_installed = "找不到 Tailscale，請先安裝並登入。"
user_setup_error not_running = "Tailscale 尚未連線，請先按下 Connect。"
user_setup_error _ = "暫時無法開啟設定頁，請稍後再試。"

abbrev pub current_mode : Agent → Bytes
current_mode a = mode a.store.cfg

abbrev pub on_entry : (Service → Service) → Option Service → Option Service
on_entry f none = none
on_entry f (some s) = some (f s)

abbrev pub with_mode : Bytes → Config → Result ConfigError Config
with_mode m c = ok (record c { connection_mode = m })

module _ (codec : Codec) (w : Surroundings) where
  abbrev pub Outcome : Type 0
  Outcome = Result AgentError (Unit {0}) × Agent

  left_simple : Agent → Result ConfigError (Unit {0}) × Store → Outcome
  left_simple a (err e, store) =
      let b : Agent = record a { store = store } in
      (
        err not_stored,
        if same (current_mode b) (bytes "simple")
            then record b { entry = on_entry (set_active true) b.entry }
            else b,
      )
  left_simple a (ok _, store) =
      (ok tt, record a { store = store; entry = on_entry (λ s. (close s).0) a.entry; shown = none })

  prepared : Option Bool → Bool
  prepared none = true
  prepared (some done) = done

  to_tailscale : Agent → Result TailscaleError Status → Outcome
  unfolding left_simple prepared
  to_tailscale a (err e) = (err (setup_failed (user_setup_error e)), a)
  to_tailscale a (ok _) =
      if not (prepared w.prepare)
      then (err prepare_failed, a)
      else left_simple (record a { entry = on_entry (set_active false) a.entry })
          (update codec w.faults (with_mode []) a.store)

  show_ticket : Agent → Service → Result SimpleError (Ticket × Service) → Outcome
  show_ticket a s (err e) = (err (simple_failed e), record a { entry = some s })
  show_ticket a s (ok (t, s')) = (ok tt, record a { entry = some s'; shown = some t })

  -- `again` is the action `pair`.
  activate : Bool → Agent → Service → Outcome
  unfolding show_ticket
  activate again a s =
      let t = set_active true s in
      if again || (not (is_paired t) && not (pairing_pending w.now t))
      then show_ticket a t (new_pairing w.now w.bits t)
      else (ok tt, record a { entry = some t })

  entered_simple : Bool → Agent → Service → Result ConfigError (Unit {0}) × Store → Outcome
  unfolding activate
  entered_simple again a s (err e, store) =
      (err (config_failed e), record a { store = store; entry = some (close s).0 })
  entered_simple again a s (ok _, store) = activate again (record a { store = store }) s

  to_simple : Bool → Agent → Result SimpleError (Unit {0}) × Service → Outcome
  unfolding activate entered_simple
  to_simple again a (err e, s) = (err (simple_failed e), record a { entry = some s })
  to_simple again a (ok _, s) =
      if not (same (current_mode a) (bytes "simple"))
      then entered_simple again a s (update codec w.faults (with_mode (bytes "simple")) a.store)
      else activate again a s

  pub entry_of : Agent → Service
  entry_of a = elim a.entry [ none ↦ new_service a.store.cfg.device_name | some s ↦ s ]

  revoked : Agent → Result SimpleError Service → Outcome
  revoked a (err e) = (err (simple_failed e), a)
  revoked a (ok s) = (ok tt, record a { entry = some s; shown = none })

  revoke_entry : Agent → Outcome
  unfolding revoked
  revoke_entry a = elim a.entry [
    | none ↦ (ok tt, record a { shown = none })
    | some s ↦ revoked a (revoke w.bits s)
  ]

  unfoldable pub configure_connection : Bytes → Agent → Outcome
  unfolding to_tailscale to_simple entry_of revoke_entry
  configure_connection action a =
      if same action (bytes "tailscale")
      then to_tailscale a w.tailnet
      else if same action (bytes "simple") || same action (bytes "pair")
      then to_simple (same action (bytes "pair")) a (start w.conditions (entry_of a))
      else if same action (bytes "revoke")
      then revoke_entry a
      else (err unsupported, a)
