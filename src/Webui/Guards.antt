-- ===== src/Webui/Guards.antt =====
-- Who can do what with the dashboard and the setup pages.
use tailclip.Base.{
  ℕ, ◌+◌, ◌≤◌, ◌≡◌, refl, ◌⊎◌, inl, inr, Bool, true, false, ◌&&◌, Option, none, some, List, [], ◌∷◌,
  arith, Bytes, bytes, same, same_iff, Option-cases, Result,
}
use tailclip.Base.Map.{get}
use tailclip.Http.{Request, Parsers, request_is_local}
use tailclip.Pairing.{Session, Manager, lookup}
use tailclip.Webui.{
  Assets, setup_page, public_setup, path_parts, ready, setup_parts, shortcut, file_of,
}
use tailclip.Webui.Dashboard.{
  DashboardData, Entry, Host, is_foreign, touched, at_parts, entry_request, serve_dashboard, tick,
  close_host, idle_timeout,
}

-- The parts of a path name an entry that the host holds.
abbrev pub known : Option Entry → Bool
known none = false
known (some e) = true

abbrev pub name_entry : List Bytes → Host → Bool
name_entry (first ∷ id ∷ more) h = same first (bytes "dashboard") && known (get id h.entries)
name_entry _ h = false

module _ (p : Parsers) (form_action : Request → Option Bytes) {A : Type 0}
    (provider : Bool → A → Result Bytes DashboardData × A)
    (configure : Bytes → A → Option Bytes × A) where
  entry_request-agent :
      (now : ℕ) (bits : Option Bytes) (r : Request) (id : Bytes) (more : List Bytes) (e : Entry)
      (h : Host) (a : A)
      → ((entry_request p form_action provider configure now bits r id more e h a).2 ≡ a)
        ⊎ ((r.method ≡ bytes "GET") ⊎ (is_foreign r ≡ false))
  unfolding entry_request
  entry_request-agent now bits r id more e h a =
      ground (arith, same_iff r.method (bytes "GET"), same_iff r.method (bytes "POST"))

  at_parts-agent :
      (now : ℕ) (bits : Option Bytes) (r : Request) (parts : List Bytes) (h : Host) (a : A)
      → ((at_parts p form_action provider configure now bits r parts h a).2 ≡ a)
        ⊎ ((name_entry parts h ≡ true) × ((r.method ≡ bytes "GET") ⊎ (is_foreign r ≡ false)))
  unfolding at_parts
  at_parts-agent now bits r [] h a = inl refl
  at_parts-agent now bits r (first ∷ []) h a = inl refl
  at_parts-agent now bits r (first ∷ id ∷ more) h a = elim (Option-cases (get id h.entries)) [
    | inl e ↦ ground arith
    | inr (x, e) ↦ ground (arith, entry_request-agent now bits r id more x (touched now r id x h) a)
  ]

  -- The agent is reached through the dashboard only by a request from this computer to this computer,
  -- for an entry that the host holds, that is a GET or does not come from a page of another site.
  -- Every other request leaves the agent's state as it is.
  pub serve_dashboard_guard :
      (now : ℕ) (bits : Option Bytes) (r : Request) (h : Host) (a : A)
      → ((serve_dashboard p form_action provider configure now bits r h a).2 ≡ a)
        ⊎ ((request_is_local p r ≡ true)
            × (name_entry (path_parts r.path) h ≡ true)
            × ((r.method ≡ bytes "GET") ⊎ (is_foreign r ≡ false)))
  unfolding serve_dashboard
  serve_dashboard_guard now bits r h a =
      ground (arith, at_parts-agent now bits r (path_parts r.path) h a)

-- After twenty minutes without a request, a page that was opened is gone.
pub tick_idle :
    (now later : ℕ) (r : Request) (id k : Bytes) (e : Entry) (h : Host)
    → h.listening ≡ true
    → now + idle_timeout ≤ later
    → get k (tick later (touched now r id e h)).entries ≡ none
unfolding tick touched close_host get
tick_idle now later r id k e h l t = ground arith

setup_parts_sound :
    (now : ℕ) (a : Assets) (parts : List Bytes) (m : Manager) (s : Session) (b : Bool)
    → (setup_parts now a parts m).0 ≡ setup_page s b
    → (b ≡ ready a)
      × ((nonce : Bytes) × (parts ≡ bytes "setup" ∷ nonce ∷ []) × ((lookup now nonce m).0 ≡ some s))
unfolding setup_parts shortcut file_of
setup_parts_sound now a [] m s b h = absurd (ground arith)
setup_parts_sound now a (first ∷ []) m s b h = absurd (ground arith)
setup_parts_sound now a (first ∷ nonce ∷ []) m s b h =
    (ground arith, (nonce, ground (arith, same_iff first (bytes "setup")), ground arith))
setup_parts_sound now a (first ∷ nonce ∷ name ∷ []) m s b h = absurd (ground arith)
setup_parts_sound now a (first ∷ nonce ∷ name ∷ part ∷ more) m s b h = absurd (ground arith)

-- A setup page that is shown holds a session that the manager found for the request, which was a GET.
pub public_setup_sound :
    (now : ℕ) (a : Assets) (r : Request) (m : Manager) (s : Session) (b : Bool)
    → (public_setup now a r m).0 ≡ setup_page s b
    → (r.method ≡ bytes "GET")
      × (b ≡ ready a)
      × ((nonce : Bytes) × (path_parts r.path ≡ bytes "setup" ∷ nonce ∷ [])
          × ((lookup now nonce m).0 ≡ some s))
unfolding public_setup
public_setup_sound now a r m s b h =
    let sound = setup_parts_sound now a (path_parts r.path) m s b (ground arith) in
    (ground (arith, same_iff r.method (bytes "GET")), sound.0, sound.1)
