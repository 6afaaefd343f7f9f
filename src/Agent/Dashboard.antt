-- ===== src/Agent/Dashboard.antt =====
-- internal/agent/agent.go: `dashboardData` and `connectionData`, which fill the local dashboard. The
-- lock `modeMu` is free when they run, but for the first branch of `connection_data`.
use tailclip.Base.{
  ℕ, Bool, false, not, ◌&&◌, Option, none, some, [], ◌∷◌, ◌++◌, ltb, ◌==◌, Bytes, bytes, same,
  is_empty, trim_space, trim_suffix, if◌then◌else◌, Result, ok, err,
}
use tailclip.Config.Settings.{Config, ConfigError, rotate_token}
use tailclip.Config.File.{Codec}
use tailclip.Config.Store.{Store, update}
use tailclip.Pairing.{Url, Session, Manager, PairingError, create}
use tailclip.Simple.{Service, Ticket, is_paired, pairing_pending}
use tailclip.Tailscale.{TailscaleError, Status, base_url}
use tailclip.Agent.{Agent, Surroundings, current_mode}

pub data DataError : Type 0 where
  not_saved : ConfigError → DataError
  no_session : PairingError → DataError

-- What the message below the heading says.
pub data Notice : Type 0 where
  nothing starting not_ready : Notice
  setup : TailscaleError → Notice

-- What the dashboard shows, with the notice as a value.
pub record Shown : Type 0 where
  pub mode : Bytes
  pub notice : Notice
  pub simple_paired : Bool
  pub device_name : Bytes
  pub dns_name : Bytes
  pub pairing_url : Bytes
  pub expires_at : ℕ
  pub clipboard_available : Bool
  pub shortcuts_ready : Bool

-- `Pairing.URL`.
unfoldable pub ticket_url : Ticket → Bytes
ticket_url t = trim_suffix t.base_url (bytes "/v1") ++ bytes "/setup/" ++ t.ticket

abbrev bare : Agent → Shown
bare a = record {
  mode = current_mode a;
  notice = nothing;
  simple_paired = false;
  device_name = a.store.cfg.device_name;
  dns_name = [];
  pairing_url = [];
  expires_at = 0;
  clipboard_available = false;
  shortcuts_ready = false;
}

-- The code that is shown: one that was made, that the entry still waits for, and that is in time.
unfoldable pub with_ticket : ℕ → Agent → Shown → Shown
unfolding ticket_url
with_ticket now a d = elim a.shown [
  | none ↦ d
  | some t ↦ elim a.entry [
    | none ↦ d
    | some s ↦
        if not (is_empty t.ticket) && pairing_pending now s && ltb now t.expires_at
        then record d { pairing_url = ticket_url t; expires_at = t.expires_at }
        else d
  ]
]

with_entry : Option Service → Shown → Shown
with_entry none d = d
with_entry (some s) d = record d {
  simple_paired = is_paired s;
  notice = if not s.ready then not_ready else d.notice;
}

-- `busy`: a change of the connection holds the lock.
unfoldable pub connection_data : Bool → ℕ → Agent → Shown
unfolding with_ticket with_entry
connection_data busy now a =
    if busy
    then record (bare a) { notice = starting }
    else with_ticket now a (with_entry a.entry (bare a))

-- The part of a name in front of the first point.
unfoldable pub first_label : Bytes → Bytes
first_label [] = []
first_label (c ∷ s) = let rest = first_label s in if c == b'.' then [] else c ∷ rest

unfoldable pub device_of : Status → Bytes
unfolding first_label
device_of s =
    if is_empty (trim_space s.host_name) then first_label s.dns_name else trim_space s.host_name

-- The change of the settings: the name of the node, and a new token if one is asked for.
unfoldable pub data_change : Bytes → Bool → Option Bytes → Config → Result ConfigError Config
data_change device rotate raw c =
    let c' = record c { tailscale_device = device } in if rotate then rotate_token raw c' else ok c'

module _ (codec : Codec) (parse_url : Bytes → Option Url) (w : Surroundings) where
  unfoldable pub session_data :
      Status
      → Bool
      → Bool
      → Agent
      → Result PairingError (Session × Manager)
      → Result DataError Shown × Agent
  session_data s available ready a (err e) = (err (no_session e), a)
  session_data s available ready a (ok (session, m)) = (
    ok (record {
      mode = bytes "tailscale";
      notice = nothing;
      simple_paired = false;
      device_name = a.store.cfg.device_name;
      dns_name = s.dns_name;
      pairing_url = trim_suffix (base_url s) (bytes "/v1") ++ bytes "/setup/" ++ session.nonce;
      expires_at = session.expires_at;
      clipboard_available = available;
      shortcuts_ready = ready;
    }),
    record a { pairing = m },
  )

  -- `bits` are the random bytes of the session.
  unfoldable pub stored_data :
      Option Bytes
      → Status
      → Bool
      → Bool
      → Agent
      → Result ConfigError (Unit {0}) × Store
      → Result DataError Shown × Agent
  unfolding session_data
  stored_data bits s available ready a (err e, store) =
      (err (not_saved e), record a { store = store })
  stored_data bits s available ready a (ok _, store) =
      let b : Agent = record a { store = store } in
      session_data s available ready b (
        create parse_url w.now bits
          (record {
            version = 1;
            base_url = base_url s;
            token = b.store.cfg.pairing_token;
            device_name = b.store.cfg.device_name;
            tailscale_device = b.store.cfg.tailscale_device;
          })
          b.pairing)

  -- `available` is what the clipboard answers, `ready` whether the shortcuts are built in.
  unfoldable pub dashboard_data :
      (busy rotate : Bool)
      → Option Bytes
      → (available ready : Bool) → Agent
      → Result DataError Shown × Agent
  unfolding stored_data
  dashboard_data busy rotate bits available ready a =
      if not (same (current_mode a) (bytes "tailscale"))
      then (ok (connection_data busy w.now a), a)
      else elim w.tailnet [
        | err e ↦ (ok (record (connection_data busy w.now a) { notice = setup e }), a)
        | ok s ↦
            stored_data bits s available ready a
              (update codec w.faults (data_change (device_of s) rotate w.bits) a.store)
      ]
