-- ===== src/Agent/Modes.antt =====
-- One entry at a time: what a change of the connection does to the settings and the simple entry.
use tailclip.Base.{
  ◌≡◌, refl, ◌⊎◌, inl, inr, Bool, true, false, Option, none, some, [], arith, Bytes, bytes, same,
  same_iff, ok, err, Option-cases, Result-cases,
}
use tailclip.Config.Settings.{ConfigError, mode}
use tailclip.Config.File.{Codec, Faults}
use tailclip.Config.Store.{Store, update}
use tailclip.Config.Atomic.{update_ok, update_err}
use tailclip.Simple.{Service, set_active, close, clear, revoke, new_service, set_credential}
use tailclip.Simple.Start.{
  is_running, Conditions, start, begin_start, enter_credential, enter_host, drop_runtime,
  become_ready,
}
use tailclip.Agent.{
  Agent, AgentError, Surroundings, configure_connection, current_mode, with_mode, left_simple,
  to_tailscale, show_ticket, activate, entered_simple, to_simple, entry_of, revoked, revoke_entry,
  on_entry,
}

abbrev pub entry_active : Option Service → Bool
entry_active none = false
entry_active (some s) = s.active

abbrev pub entry_key : Option Service → Bytes
entry_key none = []
entry_key (some s) = s.credential

-- The simple entry is active only while the settings name it.
abbrev pub IsExclusive : Agent → Type 0
IsExclusive a = (entry_active a.entry ≡ false) ⊎ (current_mode a ≡ bytes "simple")

start-active : (c : Conditions) (s : Service) → (start c s).1.active ≡ s.active
unfolding start begin_start clear enter_credential set_credential enter_host drop_runtime
    become_ready
start-active c s = ground arith

module _ (codec : Codec) where
  mode-update :
      (f : Faults) (m : Bytes) (s : Store)
      → (((update codec f (with_mode m) s).0 ≡ ok tt)
          × ((update codec f (with_mode m) s).1.cfg ≡ record (s.cfg) { connection_mode = m }))
        ⊎ ((e : ConfigError) × ((update codec f (with_mode m) s).0 ≡ err e)
            × ((update codec f (with_mode m) s).1.cfg ≡ s.cfg))
  mode-update f m s = elim (Result-cases (update codec f (with_mode m) s).0) [
    | inl (_, h) ↦ let (e, _, _) = update_ok codec f (with_mode m) s h in inl (h, ground arith)
    | inr (e, h) ↦ inr (e, h, (update_err codec f (with_mode m) s e h).0)
  ]

  module _ (w : Surroundings) where
    left_simple-IsExclusive :
        (a : Agent)
        → entry_active a.entry ≡ false
        → IsExclusive (left_simple codec w a (update codec w.faults (with_mode []) a.store)).1
    unfolding left_simple set_active close clear mode
    left_simple-IsExclusive a h = ground (
      arith,
      mode-update w.faults [] a.store,
      same_iff (mode (update codec w.faults (with_mode []) a.store).1.cfg) (bytes "simple"),
    )

    activate-IsExclusive :
        (again : Bool) (a : Agent) (s : Service)
        → current_mode a ≡ bytes "simple"
        → IsExclusive (activate codec w again a s).1
    unfolding activate show_ticket
    activate-IsExclusive again a s h = ground arith

    entered_simple-IsExclusive :
        (again : Bool) (a : Agent) (s : Service)
        → s.active ≡ false
        → IsExclusive
            (entered_simple codec w again a s
              (update codec w.faults (with_mode (bytes "simple")) a.store)).1
    unfolding entered_simple close clear mode activate show_ticket
    entered_simple-IsExclusive again a s h =
        ground (arith, mode-update w.faults (bytes "simple") a.store)

    revoke_entry-IsExclusive : (a : Agent) → IsExclusive a → IsExclusive (revoke_entry codec w a).1
    unfolding revoke_entry revoked revoke
    revoke_entry-IsExclusive a h = ground arith

    to_simple-IsExclusive :
        (again : Bool) (a : Agent) (s : Service)
        → (s.active ≡ false) ⊎ (current_mode a ≡ bytes "simple")
        → IsExclusive (to_simple codec w again a (start w.conditions s)).1
    unfolding to_simple
    to_simple-IsExclusive again a s h = ground (
      arith,
      start-active w.conditions s,
      same_iff (current_mode a) (bytes "simple"),
      activate-IsExclusive again a (start w.conditions s).1,
      entered_simple-IsExclusive again a (start w.conditions s).1,
    )

    entry_of-IsExclusive :
        (a : Agent)
        → IsExclusive a
        → ((entry_of codec w a).active ≡ false) ⊎ (current_mode a ≡ bytes "simple")
    unfolding entry_of new_service
    entry_of-IsExclusive a h = ground arith

    to_tailscale-IsExclusive :
        (a : Agent) → IsExclusive a → IsExclusive (to_tailscale codec w a w.tailnet).1
    unfolding to_tailscale set_active
    to_tailscale-IsExclusive a h =
        ground (
          arith,
          left_simple-IsExclusive (record a { entry = on_entry (set_active false) a.entry }),
        )

    -- Whatever the action and whatever fails: where the simple entry is active only while the settings
    -- name it, this is so after a change of the connection too.
    pub configure-IsExclusive :
        (action : Bytes) (a : Agent)
        → IsExclusive a
        → IsExclusive (configure_connection codec w action a).1
    unfolding configure_connection
    configure-IsExclusive action a h = ground (
      arith,
      to_tailscale-IsExclusive a h,
      to_simple-IsExclusive (same action (bytes "pair")) a (entry_of codec w a)
          (entry_of-IsExclusive a h),
      revoke_entry-IsExclusive a h,
    )

    left_simple_ok :
        (a : Agent)
        → entry_active a.entry ≡ false
        → (left_simple codec w a (update codec w.faults (with_mode []) a.store)).0 ≡ ok tt
        → (current_mode (left_simple codec w a (update codec w.faults (with_mode []) a.store)).1
            ≡ bytes "tailscale")
          × ((left_simple codec w a (update codec w.faults (with_mode []) a.store)).1.entry
              ≡ on_entry (λ s. (close s).0) a.entry)
          × ((left_simple codec w a (update codec w.faults (with_mode []) a.store)).1.shown ≡ none)
    unfolding left_simple mode
    left_simple_ok a i h = ground (arith, mode-update w.faults [] a.store)

    closed_entry :
        (e : Option Service)
        → (entry_active (on_entry (λ s. (close s).0) e) ≡ false)
          × (entry_key (on_entry (λ s. (close s).0) e) ≡ [])
    unfolding close clear
    closed_entry none = (refl, refl)
    closed_entry (some s) = (refl, refl)

    to_tailscale_ok :
        (a : Agent)
        → (to_tailscale codec w a w.tailnet).0 ≡ ok tt
        → (current_mode (to_tailscale codec w a w.tailnet).1 ≡ bytes "tailscale")
          × (entry_active (to_tailscale codec w a w.tailnet).1.entry ≡ false)
          × (entry_key (to_tailscale codec w a w.tailnet).1.entry ≡ [])
          × ((to_tailscale codec w a w.tailnet).1.shown ≡ none)
    unfolding to_tailscale set_active
    to_tailscale_ok a h = ground (
      arith,
      left_simple_ok (record a { entry = on_entry (set_active false) a.entry }),
      closed_entry (on_entry (set_active false) a.entry),
    )

    -- A change to Tailscale that succeeds stores that mode, closes the simple entry with its key, and
    -- takes away the code that was shown.
    pub configure-tailscale_ok :
        (a : Agent)
        → (configure_connection codec w (bytes "tailscale") a).0 ≡ ok tt
        → (current_mode (configure_connection codec w (bytes "tailscale") a).1 ≡ bytes "tailscale")
          × (entry_active (configure_connection codec w (bytes "tailscale") a).1.entry ≡ false)
          × (entry_key (configure_connection codec w (bytes "tailscale") a).1.entry ≡ [])
          × ((configure_connection codec w (bytes "tailscale") a).1.shown ≡ none)
    unfolding configure_connection same
    configure-tailscale_ok a h = to_tailscale_ok a h

    to_tailscale_err :
        (a : Agent) (e : AgentError)
        → (to_tailscale codec w a w.tailnet).0 ≡ err e
        → (current_mode (to_tailscale codec w a w.tailnet).1 ≡ current_mode a)
          × (entry_key (to_tailscale codec w a w.tailnet).1.entry ≡ entry_key a.entry)
    unfolding to_tailscale left_simple set_active
    to_tailscale_err a e h = ground (arith, mode-update w.faults [] a.store)

    -- A change to Tailscale that fails leaves the stored mode and the key of the simple entry as they
    -- were.
    pub configure-tailscale_err :
        (a : Agent) (e : AgentError)
        → (configure_connection codec w (bytes "tailscale") a).0 ≡ err e
        → (current_mode (configure_connection codec w (bytes "tailscale") a).1 ≡ current_mode a)
          × (entry_key (configure_connection codec w (bytes "tailscale") a).1.entry
              ≡ entry_key a.entry)
    unfolding configure_connection same
    configure-tailscale_err a e h = to_tailscale_err a e h

    ready_after :
        (c : Conditions) (s : Service) → (start c s).0 ≡ ok tt → (start c s).1.ready ≡ true
    unfolding start become_ready is_running
    ready_after c s h = elim (Option-cases c.session_bits) [
      | inl p ↦ ground arith
      | inr (x, p) ↦ elim (Option-cases c.token_bits) [
        | inl q ↦ ground arith
        | inr (y, q) ↦ ground arith
      ]
    ]
