-- ===== src/Agent/Rotation.antt =====
-- What the data of the dashboard shows, and what a rotation of the token stores first.
use tailclip.Base.{
  ℕ, ◌≡◌, ◌≢◌, refl, ap, sym, ◌∙◌, inl, inr, ◌<◌, Bool, true, Option, some, [], arith, Bytes, bytes,
  same, Option-cases, Result, ok, err,
}
use tailclip.Config.Settings.{ConfigError, rotate_token, generate_token}
use tailclip.Config.File.{Codec}
use tailclip.Config.Store.{Store, update}
use tailclip.Config.Atomic.{update_ok, written}
use tailclip.Config.Base64.{encode}
use tailclip.Pairing.{Url}
use tailclip.Simple.{Service, Ticket, pairing_pending}
use tailclip.Tailscale.{Status}
use tailclip.Webui.{ready}
use tailclip.Agent.{Agent, Surroundings, current_mode}
use tailclip.Agent.Dashboard.{
  session_data, stored_data, Shown, with_ticket, connection_data, dashboard_data, data_change,
  device_of,
}

-- The dashboard shows a code of the simple entry only while the entry is ready and waits for it.
pub connection_data_sound :
    (busy : Bool) (now : ℕ) (a : Agent)
    → (connection_data busy now a).pairing_url ≢ []
    → (t : Ticket) × (s : Service) × (a.shown ≡ some t)
      × (a.entry ≡ some s)
      × (s.ready ≡ true)
      × (now < s.expires)
      × (now < t.expires_at)
unfolding connection_data with_ticket pairing_pending
connection_data_sound busy now a h = ground arith

module _ (codec : Codec) (e : Surroundings) where
  rotated_store :
      (device : Bytes) (s : Store)
      → (update codec e.faults (data_change device true e.bits) s).0 ≡ ok tt
      → (raw : Bytes) × (e.bits ≡ some raw)
        × ((update codec e.faults (data_change device true e.bits) s).1.cfg.pairing_token
            ≡ encode raw)
        × ((update codec e.faults (data_change device true e.bits) s).1.disk.content
            ≡ written codec (update codec e.faults (data_change device true e.bits) s).1.cfg)
  unfolding data_change rotate_token generate_token
  rotated_store device s h =
      let (made, _, stored) = update_ok codec e.faults (data_change device true e.bits) s h in
      elim (Option-cases e.bits) [
        | inl x ↦ absurd (ground arith)
        | inr (raw, x) ↦ (raw, x, ground arith, stored)
      ]

  module _ (parse_url : Bytes → Option Url) where
    stored_data-store :
        (bits : Option Bytes) (s : Status) (available ready : Bool) (a : Agent) (d : Shown)
        (u : Result ConfigError (Unit {0}) × Store)
        → (stored_data codec parse_url e bits s available ready a u).0 ≡ ok d
        → (u.0 ≡ ok tt) × ((stored_data codec parse_url e bits s available ready a u).1.store ≡ u.1)
    unfolding stored_data session_data
    stored_data-store bits s available ready a d (err x, store) h = absurd (ground arith)
    stored_data-store bits s available ready a d (ok _, store) h = (refl, ground arith)

    data-stored_data :
        (busy : Bool) (bits : Option Bytes) (available ready : Bool) (a : Agent) (s : Status)
        → current_mode a ≡ bytes "tailscale"
        → e.tailnet ≡ ok s
        → dashboard_data codec parse_url e busy true bits available ready a
          ≡ stored_data codec parse_url e bits s available ready a
              (update codec e.faults (data_change (device_of s) true e.bits) a.store)
    unfolding dashboard_data same
    data-stored_data busy bits available ready a s m t = rw (m, t)

-- A dashboard that rotates the token, where Tailscale is the mode and answers, has drawn a new token
-- and stored it in memory and on the disk before it shows anything.
pub dashboard_data-rotates :
    (codec : Codec) (parse_url : Bytes → Option Url) (e : Surroundings) (busy : Bool)
    (bits : Option Bytes) (available ready : Bool) (a : Agent) (s : Status) (d : Shown)
    → current_mode a ≡ bytes "tailscale"
    → e.tailnet ≡ ok s
    → (dashboard_data codec parse_url e busy true bits available ready a).0 ≡ ok d
    → (raw : Bytes) × (e.bits ≡ some raw)
      × ((dashboard_data codec parse_url e busy true bits available ready
            a).1.store.cfg.pairing_token
          ≡ encode raw)
      × ((dashboard_data codec parse_url e busy true bits available ready a).1.store.disk.content
          ≡ written codec
              (dashboard_data codec parse_url e busy true bits available ready a).1.store.cfg)
dashboard_data-rotates codec parse_url e busy bits available ready a s d m t h =
    let same_data = data-stored_data codec e parse_url busy bits available ready a s m t in
    let u : Result ConfigError (Unit {0}) × Store =
      update codec e.faults (data_change (device_of s) true e.bits) a.store in
    let (saved, kept) =
      stored_data-store codec e parse_url bits s available ready a d u
        (ap (λ o. o.0) (sym same_data) ∙ h) in
    rw (same_data, kept) (rotated_store codec e (device_of s) a.store saved)
