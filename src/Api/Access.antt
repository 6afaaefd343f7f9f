-- ===== src/Api/Access.antt =====
-- Who gets through to the clipboard.
use tailclip.Base.{
  ◌≡◌, ◌⊎◌, inl, inr, ◌↔◌, true, false, Option, none, some, List, [], ◌∷◌, arith, Bytes, bytes,
  has_suffix, same_refl, same_iff, is_empty, is_empty_iff, Option-cases, Bool-cases, ok,
}
use tailclip.Http.{Request, values, get_header, Parsers, bearer, bearer_matches_iff}
use tailclip.Config.Settings.{Config}
use tailclip.Api.{OwnerIdentity}
use tailclip.Api.Identity.{
  client_header, client_version, authorized, only_value, is_login, remote_is_local, is_shortcut,
  known_owner, is_own_host, by_identity, by_token, authorize,
}

-- What the check of the account asks for: the marker of the shortcuts and no trace of a browser, a
-- local sender (Tailscale's proxy), the login that the proxy names, the owner of this node, and this
-- node's own name as the host.
pub record IsOwner (p : Parsers) (owner : Option OwnerIdentity) (r : Request) : Type 0 where
  pub value : Bytes
  pub login : Bytes
  pub dns : Bytes
  pub marker : values client_header r.header ≡ client_version ∷ []
  pub no_origin : values (bytes "Origin") r.header ≡ []
  pub no_fetch : values (bytes "Sec-Fetch-Site") r.header ≡ []
  pub local : remote_is_local p r ≡ true
  pub named : is_empty value ≡ false
  pub sent_once : values (bytes "Tailscale-User-Login") r.header ≡ value ∷ []
  pub decoded : p.decode_word value ≡ some login
  pub clean : is_login login ≡ true
  pub ask : OwnerIdentity
  pub has_owner : owner ≡ some ask
  pub same_account : ask r.ctx ≡ some (login, dns)
  pub tailnet : has_suffix dns (bytes ".ts.net") ≡ true
  pub own_host : is_own_host r.host dns ≡ true

is_shortcut_sound :
    (markers : List Bytes) (r : Request)
    → is_shortcut markers r ≡ true
    → (markers ≡ client_version ∷ [])
      × (values (bytes "Origin") r.header ≡ [])
      × (values (bytes "Sec-Fetch-Site") r.header ≡ [])
unfolding is_shortcut
is_shortcut_sound [] r h = cc
is_shortcut_sound (m ∷ more) r h = ground (
  arith,
  same_iff m client_version,
  is_empty_iff more,
  is_empty_iff (values (bytes "Origin") r.header),
  is_empty_iff (values (bytes "Sec-Fetch-Site") r.header),
)

only_value_sound :
    (vs : List Bytes) (v : Bytes) → only_value vs ≡ some v → (vs ≡ v ∷ []) × (is_empty v ≡ false)
unfolding only_value
only_value_sound [] v h = cc
only_value_sound (w ∷ []) v h = ground arith
only_value_sound (w ∷ x ∷ vs) v h = cc

known_owner_sound :
    (o : Option (Bytes × Bytes)) (q : Bytes × Bytes)
    → known_owner o ≡ some q
    → (o ≡ some q) × (has_suffix q.1 (bytes ".ts.net") ≡ true)
unfolding known_owner
known_owner_sound none q h = cc
known_owner_sound (some (login, dns)) q h = ground arith

module _ (p : Parsers) (owner : Option OwnerIdentity) (r : Request) where
  abbrev sent_values : List Bytes
  sent_values = values (bytes "Tailscale-User-Login") r.header

  owner_sound :
      (v login : Bytes) (ask : OwnerIdentity) (own : Bytes × Bytes)
      → only_value sent_values ≡ some v
      → p.decode_word v ≡ some login
      → owner ≡ some ask
      → known_owner (ask r.ctx) ≡ some own
      → by_identity p owner (values client_header r.header) r ≡ ok tt
      → IsOwner p owner r
  unfolding by_identity
  owner_sound v login ask own e₁ e₂ e₃ e₄ h =
      let shortcut = is_shortcut_sound (values client_header r.header) r (ground arith) in
      record {
        value = v;
        login = login;
        dns = own.1;
        marker = shortcut.0;
        no_origin = shortcut.1;
        no_fetch = shortcut.2;
        local = ground arith;
        named = (only_value_sound sent_values v e₁).1;
        sent_once = (only_value_sound sent_values v e₁).0;
        decoded = e₂;
        clean = ground arith;
        ask = ask;
        has_owner = e₃;
        same_account = ground (arith, known_owner_sound (ask r.ctx) own e₄, same_iff login own.0);
        tailnet = (known_owner_sound (ask r.ctx) own e₄).1;
        own_host = ground arith;
      }

  by_identity_sound :
      by_identity p owner (values client_header r.header) r ≡ ok tt → IsOwner p owner r
  unfolding by_identity
  by_identity_sound h = elim (Option-cases (only_value sent_values)) [
    | inl e ↦ absurd (ground arith)
    | inr (v, e₁) ↦ elim (Option-cases (p.decode_word v)) [
      | inl e ↦ absurd (ground arith)
      | inr (login, e₂) ↦ elim (Option-cases owner) [
        | inl e ↦ absurd (ground arith)
        | inr (ask, e₃) ↦ elim (Option-cases (known_owner (ask r.ctx))) [
          | inl e ↦ absurd (ground arith)
          | inr (own, e₄) ↦ owner_sound v login ask own e₁ e₂ e₃ e₄ h
        ]
      ]
    ]
  ]

  -- Whoever gets past the check either carries no marker and has the pairing token, or is the owner
  -- of this computer in the sense of `IsOwner`.
  authorize_sound :
      (cfg : Config)
      → authorize p cfg owner r ≡ ok tt
      → ((values client_header r.header ≡ [])
          × (get_header (bytes "Authorization") r.header ≡ bearer cfg.pairing_token))
        ⊎ IsOwner p owner r
  unfolding authorize by_token authorized
  authorize_sound cfg h = elim (Bool-cases (is_empty (values client_header r.header))) [
    | inl t ↦ inl ((is_empty_iff _).0 t, (bearer_matches_iff _ cfg.pairing_token).0 (ground arith))
    | inr t ↦ inr (by_identity_sound (ground arith))
  ]

  IsOwner-is_shortcut : IsOwner p owner r → is_shortcut (values client_header r.header) r ≡ true
  unfolding is_shortcut
  IsOwner-is_shortcut o =
      rw (o.marker, o.no_origin, o.no_fetch, is_shortcut, same_refl client_version)

  IsOwner-only_value : (o : IsOwner p owner r) → only_value sent_values ≡ some o.value
  unfolding only_value
  IsOwner-only_value o = rw (o.sent_once, only_value, o.named)

  IsOwner-known_owner : (o : IsOwner p owner r) → known_owner (o.ask r.ctx) ≡ some (o.login, o.dns)
  unfolding known_owner is_login
  IsOwner-known_owner o =
      let clean = o.clean in let t = o.tailnet in rw (o.same_account, known_owner) (ground arith)

  by_identity_complete :
      IsOwner p owner r → by_identity p owner (values client_header r.header) r ≡ ok tt
  unfolding by_identity
  by_identity_complete o =
      rw
        (
          IsOwner-is_shortcut o,
          o.local,
          IsOwner-only_value o,
          o.decoded,
          o.clean,
          o.has_owner,
          by_identity,
        )
        (ground (arith, IsOwner-known_owner o, o.own_host, same_refl o.login))

  authorize_complete :
      (cfg : Config)
      → ((values client_header r.header ≡ [])
          × (get_header (bytes "Authorization") r.header ≡ bearer cfg.pairing_token))
        ⊎ IsOwner p owner r
      → authorize p cfg owner r ≡ ok tt
  unfolding authorize by_token authorized
  authorize_complete cfg (inl (none_sent, token)) =
      rw none_sent (ground (arith, (bearer_matches_iff _ cfg.pairing_token).1 token))
  authorize_complete cfg (inr o) = rw o.marker (rw o.marker at (by_identity_complete o))

  -- Exactly those get past the check: who carries no marker of the new shortcuts and has the pairing
  -- token, and the owner of this computer in the sense of `IsOwner`.
  pub authorize_iff :
      (cfg : Config)
      → (authorize p cfg owner r ≡ ok tt) ↔ (
          ((values client_header r.header ≡ [])
            × (get_header (bytes "Authorization") r.header ≡ bearer cfg.pairing_token))
          ⊎ IsOwner p owner r)
  authorize_iff cfg = (authorize_sound cfg, authorize_complete cfg)
