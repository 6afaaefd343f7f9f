-- ===== src/Agent/Setup.antt =====
-- The code that the dashboard shows in Tailscale's mode, and the setup page that it leads to.
use tailclip.Base.{
  ℕ, ◌+◌, ◌<◌, ◌≡◌, refl, ap, sym, ◌∙◌, Bool, false, Option, some, [], ◌∷◌, ◌++◌, arith, Bytes,
  bytes, same, is_empty, trim_suffix, ok, err, Result,
}
use tailclip.Config.Settings.{ConfigError}
use tailclip.Config.Base64.{encode, AreBytes, encode-no_slash, encode-not_empty}
use tailclip.Config.File.{Codec}
use tailclip.Config.Store.{Store, update}
use tailclip.Http.{Request}
use tailclip.Pairing.{Url, Data, Session, Manager, PairingError, session_lifetime, create, lookup}
use tailclip.Pairing.Sessions.{create_ok, lookup-create}
use tailclip.Tailscale.{Status, base_url}
use tailclip.Webui
use tailclip.Webui.{Assets, public_setup, setup_page, path_parts}
use tailclip.Webui.Paths.{path_parts-setup}
use tailclip.Agent.{Agent, Surroundings, current_mode}
use tailclip.Agent.Dashboard.{
  Shown, DataError, session_data, stored_data, dashboard_data, data_change, device_of,
}

-- A request for the page of a session that is kept.
public_setup-found :
    (later : ℕ) (assets : Assets) (r : Request) (m m' : Manager) (nonce : Bytes) (s : Session)
    → r.method ≡ bytes "GET"
    → path_parts r.path ≡ bytes "setup" ∷ nonce ∷ []
    → lookup later nonce m ≡ (some s, m')
    → public_setup later assets r m ≡ (setup_page s (Webui.ready assets), m')
unfolding public_setup same
public_setup-found later assets r m m' nonce s get parts found = rw (get, parts, found)

create-nonce :
    (parse_url : Bytes → Option Url) (now : ℕ) (bits : Bytes) (d : Data) (m m' : Manager)
    (s : Session)
    → create parse_url now (some bits) d m ≡ ok (s, m')
    → s.nonce ≡ encode bits
unfolding create
create-nonce parse_url now bits d m m' s made = ground arith

-- The page that a session's nonce leads to.
public_setup-create :
    (parse_url : Bytes → Option Url) (now later : ℕ) (bits : Bytes) (d : Data) (m m' : Manager)
    (s : Session) (assets : Assets) (r : Request)
    → create parse_url now (some bits) d m ≡ ok (s, m')
    → AreBytes bits
    → is_empty bits ≡ false
    → later < now + session_lifetime
    → r.method ≡ bytes "GET"
    → r.path ≡ bytes "/setup/" ++ encode bits
    → public_setup later assets r m' ≡ (setup_page s (Webui.ready assets), m')
public_setup-create parse_url now later bits d m m' s assets r made are_bytes some_bits soon get
      path =
    let parts =
      path_parts-setup (encode bits) (encode-not_empty bits some_bits)
        (encode-no_slash bits are_bytes) in
    let found : lookup later s.nonce m' ≡ (some s, m') =
      lookup-create parse_url now later (some bits) d m m' s made ∙ ground arith in
    let at_nonce : lookup later (encode bits) m' ≡ (some s, m') =
      ap (λ n. lookup later n m') (sym (create-nonce parse_url now bits d m m' s made)) ∙ found in
    public_setup-found later assets r m' m' (encode bits) s get (ap path_parts path ∙ parts)
      at_nonce

-- The page of a session, once its data is stored.
pub record Opens (codec : Codec) (s : Status) (now : ℕ) (bits : Bytes) (assets : Assets) (d : Shown)
    (a : Agent) : Type 0 where
  pub session : Session
  pub address :
      d.pairing_url ≡ trim_suffix (base_url s) (bytes "/v1") ++ bytes "/setup/" ++ encode bits
  pub in_time : d.expires_at ≡ now + session_lifetime
  pub token : session.contents.token ≡ a.store.cfg.pairing_token
  pub entry : session.contents.base_url ≡ base_url s
  pub page :
      (later : ℕ) (r : Request)
      → later < now + session_lifetime
      → r.method ≡ bytes "GET"
      → r.path ≡ bytes "/setup/" ++ encode bits
      → public_setup later assets r a.pairing ≡ (setup_page session (Webui.ready assets), a.pairing)

abbrev shown_as : Shown → Result DataError Shown
shown_as x = ok x

shown_of : Shown → Result DataError Shown → Shown
shown_of x (ok y) = y
shown_of x (err e) = x

ok_injective : {x y : Shown} → shown_as x ≡ shown_as y → x ≡ y
unfolding shown_of
ok_injective {x} = ap (shown_of x)

module _ (codec : Codec) (parse_url : Bytes → Option Url) (w : Surroundings) (bits : Bytes)
    (are_bytes : AreBytes bits) (some_bits : is_empty bits ≡ false) (assets : Assets) where
  session_data-Opens :
      (s : Status) (available ready : Bool) (a : Agent) (d : Data)
      (x : Result PairingError (Session × Manager)) (shown : Shown)
      → create parse_url w.now (some bits) d a.pairing ≡ x
      → d.token ≡ a.store.cfg.pairing_token
      → d.base_url ≡ base_url s
      → (session_data codec parse_url w s available ready a x).0 ≡ ok shown
      → Opens codec s w.now bits assets shown
          (session_data codec parse_url w s available ready a x).1
  unfolding session_data
  session_data-Opens s available ready a d (err e) shown made t b h = cc
  session_data-Opens s available ready a d (ok (session, m)) shown made t b h =
      let nonce = create-nonce parse_url w.now bits d a.pairing m session made in
      let (_, expires, contents, _) =
        create_ok parse_url w.now (some bits) d a.pairing m session made in
      let same_shown = ok_injective h in
      record {
        session = session;
        address =
            ap (λ x. x.pairing_url) (sym same_shown)
            ∙ ap (λ n. trim_suffix (base_url s) (bytes "/v1") ++ bytes "/setup/" ++ n) nonce;
        in_time = ap (λ x. x.expires_at) (sym same_shown) ∙ expires;
        token = ap (λ x. x.token) contents ∙ t;
        entry = ap (λ x. x.base_url) contents ∙ b;
        page = λ later r soon get path.
            public_setup-create parse_url w.now later bits d a.pairing m session assets r made
              are_bytes some_bits soon get path;
      }

  stored_data-Opens :
      (s : Status) (available ready : Bool) (a : Agent) (x : Result ConfigError (Unit {0}) × Store)
      (shown : Shown)
      → (stored_data codec parse_url w (some bits) s available ready a x).0 ≡ ok shown
      → Opens codec s w.now bits assets shown
          (stored_data codec parse_url w (some bits) s available ready a x).1
  unfolding stored_data
  stored_data-Opens s available ready a (err e, store) shown h = cc
  stored_data-Opens s available ready a (ok _, store) shown h =
      session_data-Opens s available ready (record a { store = store }) _ _ shown refl refl refl h

  -- The code of Tailscale's mode leads to its page: where the dashboard's data was made in this mode,
  -- from the status of a node and with random bytes for the session, which are bytes and not none,
  -- the address in it ends in these bytes as Base64. For fifteen minutes a GET of this path gets
  -- the setup page of a session, and the sessions stay as they are. The session has the token that
  -- is then stored and the address of the node's entry.
  pub dashboard_data-Opens :
      (rotate available ready : Bool) (a : Agent) (s : Status) (shown : Shown)
      → current_mode a ≡ bytes "tailscale"
      → w.tailnet ≡ ok s
      → (dashboard_data codec parse_url w false rotate (some bits) available ready a).0 ≡ ok shown
      → Opens codec s w.now bits assets shown
          (dashboard_data codec parse_url w false rotate (some bits) available ready a).1
  unfolding dashboard_data same
  dashboard_data-Opens rotate available ready a s shown mode up =
      rw (mode, up)
        (stored_data-Opens s available ready a
          (update codec w.faults (data_change (device_of s) rotate w.bits) a.store) shown)
