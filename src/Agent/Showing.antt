-- ===== src/Agent/Showing.antt =====
-- The code that the dashboard shows after a change of the connection, and the ticket behind it.
use tailclip.Base.{
  ℕ, ◌+◌, ◌∷◌, ◌<◌, ◌≡◌, ◌⊎◌, refl, ap, sym, ◌∙◌, inl, inr, Bool, true, false, Option, none, some,
  [], arith, Bytes, bytes, same, not, is_empty, if_intro, ok, err, Result, Result-cases,
  Option-cases, Bool-cases,
}
use tailclip.Config.Settings.{ConfigError}
use tailclip.Config.File.{Codec}
use tailclip.Config.Store.{Store, update}
use tailclip.Simple.{
  ticket_lifetime, Service, Ticket, SimpleError, set_active, new_pairing, clear, set_credential,
  pairing_pending,
}
use tailclip.Simple.Start.{
  Conditions, start, valid_host, valid_url, is_running, begin_start, enter_credential, enter_host,
  drop_runtime, become_ready,
}
use tailclip.Simple.Phone.Session.{Offers, new_pairing-Offers, new_pairing-expires}
use tailclip.Agent.{
  Agent, Outcome, Surroundings, configure_connection, show_ticket, activate, entered_simple,
  to_simple, entry_of, current_mode, with_mode,
}
use tailclip.Agent.Dashboard.{Shown, connection_data, ticket_url, with_ticket}

-- An entry that is ready has an address.
abbrev pub IsHosted : Service → Type 0
IsHosted s = (s.ready ≡ false) ⊎ (is_empty s.host ≡ false)

valid_host-not_empty : (h : Bytes) → valid_host h ≡ true → is_empty h ≡ false
unfolding valid_host tailclip.Base.strip_prefix
valid_host-not_empty [] v = cc
valid_host-not_empty (c ∷ h) v = refl

start_ok :
    (c : Conditions) (s : Service)
    → (start c s).0 ≡ ok tt
    → IsHosted s
    → ((start c s).1.ready ≡ true) × (is_empty (start c s).1.host ≡ false)
unfolding start is_running begin_start clear enter_credential set_credential enter_host drop_runtime
    become_ready valid_url
start_ok c s h hosted = elim (Option-cases c.address) [
  | inl e ↦ ground arith
  | inr (u, e) ↦ ground (arith, valid_host-not_empty u.host)
]

-- The ticket that is shown is one that the entry waits for.
pub record IsShown (now : ℕ) (a : Agent) : Type 0 where
  pub service : Service
  pub ticket : Ticket
  pub in_entry : a.entry ≡ some service
  pub in_agent : a.shown ≡ some ticket
  pub offers : Offers service ticket
  pub expires : now + ticket_lifetime ≡ ticket.expires_at

IsShown-url :
    (now later : ℕ) (a : Agent) (d : Shown) (shown : IsShown now a)
    → later < shown.ticket.expires_at
    → (with_ticket later a d).pairing_url ≡ ticket_url shown.ticket
unfolding with_ticket pairing_pending
IsShown-url now later a d shown soon =
    rw (shown.in_agent, shown.in_entry, with_ticket)
      (ground (
        arith, shown.offers.ready, shown.offers.has_ticket, shown.offers.same_ticket,
        shown.offers.same_expiry,
      ))

module _ (codec : Codec) (w : Surroundings) (bits : Bytes) (drawn : w.bits ≡ some bits)
    (some_bits : is_empty bits ≡ false) where
  show_ticket-IsShown :
      (a : Agent) (s : Service) (r : Result SimpleError (Ticket × Service))
      → new_pairing w.now (some bits) s ≡ r
      → s.active ≡ true
      → is_empty s.host ≡ false
      → (show_ticket codec w a s r).0 ≡ ok tt
      → IsShown w.now (show_ticket codec w a s r).1
  unfolding show_ticket
  show_ticket-IsShown a s (err e) n active hosted h = cc
  show_ticket-IsShown a s (ok (t, s')) n active hosted h = record {
    service = s';
    ticket = t;
    in_entry = refl;
    in_agent = refl;
    offers = new_pairing-Offers w.now bits s s' t n active hosted some_bits;
    expires = new_pairing-expires w.now bits s s' t n;
  }

  activate-IsShown :
      (a : Agent) (s : Service)
      → is_empty s.host ≡ false
      → (activate codec w true a s).0 ≡ ok tt
      → IsShown w.now (activate codec w true a s).1
  unfolding activate set_active
  activate-IsShown a s hosted h =
      let t = set_active true s in
      show_ticket-IsShown a t (new_pairing w.now w.bits t)
        (ap (λ b. new_pairing w.now b t) (sym drawn)) refl hosted h

  entered_simple-IsShown :
      (a : Agent) (s : Service) (r : Result ConfigError (Unit {0}) × Store)
      → is_empty s.host ≡ false
      → (entered_simple codec w true a s r).0 ≡ ok tt
      → IsShown w.now (entered_simple codec w true a s r).1
  unfolding entered_simple
  entered_simple-IsShown a s (err e, store) hosted h = cc
  entered_simple-IsShown a s (ok _, store) hosted h =
      activate-IsShown (record a { store = store }) s hosted h

  to_simple-IsShown :
      (a : Agent) (r : Result SimpleError (Unit {0}) × Service)
      → (r.0 ≡ ok tt → is_empty r.1.host ≡ false)
      → (to_simple codec w true a r).0 ≡ ok tt
      → IsShown w.now (to_simple codec w true a r).1
  unfolding to_simple
  to_simple-IsShown a (err e, s) hosted = λ h. cc
  to_simple-IsShown a (ok _, s) hosted =
      let changed = update codec w.faults (with_mode (bytes "simple")) a.store in
      if_intro (λ (r : Outcome codec w). r.0 ≡ ok tt → IsShown w.now r.1)
        (not (same (current_mode a) (bytes "simple")))
        (entered_simple-IsShown a s changed (hosted refl)) (activate-IsShown a s (hosted refl))

  -- A code that can be redeemed: after the action `pair` has reported success, the agent shows the
  -- ticket that its simple entry waits for; the entry is active and ready, has the address that the
  -- ticket names, and the ticket expires five minutes later. The dashboard shows this ticket's
  -- address until it expires. An entry that was ready before has an address, and the random bytes
  -- of the call are not empty.
  pub pair-IsShown :
      (a : Agent)
      → IsHosted (entry_of codec w a)
      → (configure_connection codec w (bytes "pair") a).0 ≡ ok tt
      → (shown : IsShown w.now (configure_connection codec w (bytes "pair") a).1) × ((later : ℕ)
          → later < shown.ticket.expires_at
          → (connection_data false later
              (configure_connection codec w (bytes "pair") a).1).pairing_url
            ≡ ticket_url shown.ticket)
  unfolding configure_connection same connection_data
  pair-IsShown a hosted h =
      let started = start w.conditions (entry_of codec w a) in
      let shown =
        to_simple-IsShown a started (λ e. (start_ok w.conditions (entry_of codec w a) e hosted).1)
          h in
      (shown, λ later soon. IsShown-url w.now later _ _ shown soon)
