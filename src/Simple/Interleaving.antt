-- ===== src/Simple/Interleaving.antt =====
-- The simple entry under every interleaving: `Start` by its phases, with requests, the dashboard's
-- calls and the end of a tunnel between them.
use tailclip.Base.{
  ℕ, ◌≡◌, refl, ◌⊎◌, inl, inr, Bool, true, false, Option, none, some, [], arith, Bytes, bytes,
  same_iff, is_empty_iff, is_empty, is_none, ok, ◌==◌,
}
use tailclip.Config.Base64.{encode-not_empty}
use tailclip.Http.{Request, values}
use tailclip.Clipboard.{Backend}
use tailclip.Simple.{
  Runtime, Service, Ticket, new_service, set_active, new_pairing, revoke, close, clear,
  set_credential, draw,
}
use tailclip.Simple.Start.{
  valid_host, begin_start, enter_credential, enter_host, drop_runtime, become_ready, tunnel_over,
}
use tailclip.Simple.Serve.{
  PairParsers, pair, authorized, count_attempt, redeem, serve_buffered, to_api,
}

-- How far a call of `Start` has come. It holds the lock `lifecycle` in every phase but `resting`.
pub data Phase : Type 0 where
  resting cleared entered : Phase
  hosting : Runtime → Phase

pub record World : Type 0 where
  pub service : Service
  pub phase : Phase

-- A draw of random bytes is never empty.
abbrev pub Drawn : Option Bytes → Type 0
Drawn none = Unit {0}
Drawn (some raw) = is_empty raw ≡ false

abbrev to : World → Service → Phase → World
to w s phase = record { service = s; phase = phase }

abbrev keep : World → Service → World
keep w s = record w { service = s }

-- The watcher of a tunnel is started when its `Start` has ended.
abbrev IsWatched : Runtime → Phase → Type 0
IsWatched rt (hosting r) = (r.id == rt.id) ≡ false
IsWatched rt _ = Unit {0}

module _ (p : PairParsers) {S : Type 0} (b : Backend S) where
  pub data Step (w : World) : World → Type 0 where
    activates : (active : Bool) → Step w (keep w (set_active active w.service))
    revokes :
        (raw : Option Bytes) (s : Service)
        → Drawn raw
        → revoke raw w.service ≡ ok s
        → Step w (keep w s)
    shows :
        (now : ℕ) (raw : Option Bytes) (t : Ticket) (s : Service)
        → Drawn raw
        → new_pairing now raw w.service ≡ ok (t, s)
        → Step w (keep w s)
    serves :
        (now : ℕ) (raw : Option Bytes) (r : Request) (d : S)
        → Drawn raw
        → Step w (keep w (serve_buffered p b now raw r w.service d).1)
    closes : w.phase ≡ resting → Step w (keep w (close w.service).0)
    begins : w.phase ≡ resting → Step w (to w (begin_start w.service) cleared)
    gives_up : w.phase ≡ cleared → Step w (to w w.service resting)
    enters :
        (session token : Bytes)
        → w.phase ≡ cleared
        → is_empty session ≡ false
        → is_empty token ≡ false
        → Step w (to w (enter_credential session token w.service) entered)
    fails : w.phase ≡ entered → Step w (to w (clear w.service) resting)
    hosts :
        (rt : Runtime) (host : Bytes)
        → w.phase ≡ entered
        → valid_host host ≡ true
        → Step w (to w (enter_host rt host w.service) (hosting rt))
    drops :
        (rt : Runtime) → w.phase ≡ hosting rt → Step w (to w (drop_runtime rt w.service) resting)
    finishes :
        (rt : Runtime) → w.phase ≡ hosting rt → Step w (to w (become_ready w.service) resting)
    ends : (rt : Runtime) → IsWatched rt w.phase → Step w (keep w (tunnel_over rt w.service))

  pub data Reach (device : Bytes) : World → Type 0 where
    here : Reach device (record { service = new_service device; phase = resting })
    next : {v w : World} → Reach device v → Step v w → Reach device w

-- An entry that is ready has a tunnel, an address of the tunnel's provider and a credential.
abbrev pub ReadyParts : Service → Type 0
ReadyParts s =
    (is_none s.runtime ≡ false) × (valid_host s.host ≡ true) × (is_empty s.credential ≡ false)

abbrev pub PhaseParts : Service → Phase → Type 0
PhaseParts s resting = Unit {0}
PhaseParts s cleared = (s.ready ≡ false) × (s.runtime ≡ none)
PhaseParts s entered = (s.ready ≡ false) × (s.runtime ≡ none) × (is_empty s.credential ≡ false)
PhaseParts s (hosting rt) =
    (s.ready ≡ false)
    × (s.runtime ≡ some rt)
    × (valid_host s.host ≡ true)
    × (is_empty s.credential ≡ false)

-- A ticket or a paired phone stands only in an entry that is ready.
pub record IsValid (s : Service) (phase : Phase) : Type 0 where
  pub complete : (s.ready ≡ false) ⊎ ReadyParts s
  pub ticket_ready : (s.ticket ≡ []) ⊎ (s.ready ≡ true)
  pub paired_ready : (s.paired ≡ false) ⊎ (s.ready ≡ true)
  pub phase_parts : PhaseParts s phase

draw-not_empty :
    (raw : Option Bytes) (token : Bytes) → Drawn raw → draw raw ≡ ok token → is_empty token ≡ false
draw-not_empty none token h e = cc
draw-not_empty (some bits) token h e = ground (arith, encode-not_empty bits h)

-- What a request may change: nothing but the limiter's and the attempts' counts, or it pairs a phone
-- while the entry is ready.
abbrev Same : Service → Service → Type 0
Same s t =
    (t.ready ≡ s.ready)
    × (t.runtime ≡ s.runtime)
    × (t.host ≡ s.host)
    × (((t.paired ≡ s.paired) × (t.credential ≡ s.credential) × (t.ticket ≡ s.ticket))
        ⊎ ((t.paired ≡ true) × (is_empty t.credential ≡ false) × (t.ticket ≡ [])))

module _ (p : PairParsers) where
  pair-Same :
      (now : ℕ) (raw : Option Bytes) (r : Request) (s : Service)
      → Drawn raw
      → Same s (pair p now raw r s).1
  unfolding pair count_attempt redeem set_credential
  pair-Same now none r s h = ground arith
  pair-Same now (some bits) r s h = ground (arith, encode-not_empty bits h)

  module _ {S : Type 0} (b : Backend S) where
    to_api-Same : (now : ℕ) (r : Request) (s : Service) (d : S) → Same s (to_api p b now r s d).1
    unfolding to_api
    to_api-Same now r s d = (refl, refl, refl, inl (refl, refl, refl))

    serve_buffered-Same :
        (now : ℕ) (raw : Option Bytes) (r : Request) (s : Service) (d : S)
        → Drawn raw
        → ((serve_buffered p b now raw r s d).1 ≡ s)
          ⊎ ((s.ready ≡ true) × Same s (serve_buffered p b now raw r s d).1)
    unfolding serve_buffered
    serve_buffered-Same now raw r s d h =
        ground (arith, pair-Same now raw r s h, to_api-Same now r s d)

    Same-IsValid :
        (s t : Service) (phase : Phase)
        → (t ≡ s) ⊎ ((s.ready ≡ true) × Same s t)
        → IsValid s phase
        → IsValid t phase
    Same-IsValid s t phase (inl e) v = rw e v
    Same-IsValid s t resting (inr h) v = ground arith
    Same-IsValid s t cleared (inr h) v = absurd (ground arith)
    Same-IsValid s t entered (inr h) v = absurd (ground arith)
    Same-IsValid s t (hosting rt) (inr h) v = absurd (ground arith)

    Step-IsValid :
        {v w : World} → Step p b v w → IsValid v.service v.phase → IsValid w.service w.phase
    unfolding set_active revoke new_pairing close clear set_credential begin_start enter_credential
        enter_host drop_runtime become_ready tunnel_over
    Step-IsValid {v = w} (activates active) v = ground arith
    Step-IsValid {v = w} (revokes none s h e) v = absurd (ground arith)
    Step-IsValid {v = w} (revokes (some raw) s h e) v = ground (arith, encode-not_empty raw h)
    Step-IsValid {v = w} (shows now none t s h e) v = absurd (ground arith)
    Step-IsValid {v = w} (shows now (some raw) t s h e) v = ground (arith, encode-not_empty raw h)
    Step-IsValid {v = w} (serves now raw r d h) v =
        Same-IsValid w.service _ w.phase (serve_buffered-Same now raw r w.service d h) v
    Step-IsValid {v = w} (closes e) v = ground arith
    Step-IsValid {v = w} (begins e) v = ground arith
    Step-IsValid {v = w} (gives_up e) v = ground arith
    Step-IsValid {v = w} (enters session token e h k) v = ground arith
    Step-IsValid {v = w} (fails e) v = ground arith
    Step-IsValid {v = w} (hosts rt host e h) v = ground arith
    Step-IsValid {v = w} (drops rt e) v = ground arith
    Step-IsValid {v = w} (finishes rt e) v = ground arith
    Step-IsValid {v = w} (ends rt e) v = ground arith

    -- Whatever the interleaving of requests, the dashboard's calls, the phases of `Start` and the end
    -- of tunnels: an entry that is ready has a tunnel, an address of the provider and a credential,
    -- and neither a ticket nor a paired phone outlives that.
    pub Reach-IsValid :
        (device : Bytes) (w : World) → Reach p b device w → IsValid w.service w.phase
    unfolding new_service
    Reach-IsValid device w here = ground arith
    Reach-IsValid device w (next r st) = Step-IsValid st (Reach-IsValid device _ r)

    -- The clipboard is reached only by the paired phone: through the current address, while the entry
    -- is active and ready, with the current credential and without a browser's headers `Origin` and
    -- `Sec-Fetch-Site`. Every other request leaves the clipboard alone.
    pub serve_buffered_guard :
        (now : ℕ) (raw : Option Bytes) (r : Request) (s : Service) (d : S)
        → ((serve_buffered p b now raw r s d).2 ≡ d)
          ⊎ ((s.active ≡ true)
              × (s.ready ≡ true)
              × (r.host ≡ s.host)
              × (values (bytes "Origin") r.header ≡ [])
              × (values (bytes "Sec-Fetch-Site") r.header ≡ [])
              × (authorized s r ≡ true))
    unfolding serve_buffered
    serve_buffered_guard now raw r s d = ground (
      arith,
      same_iff r.host s.host,
      is_empty_iff (values (bytes "Origin") r.header),
      is_empty_iff (values (bytes "Sec-Fetch-Site") r.header),
    )
