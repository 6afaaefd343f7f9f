-- ===== src/Api/Identity.antt =====
-- internal/api/identity.go and `authorized` of internal/api/server.go: who may use the clipboard.
use tailclip.Base.{
  Bool, true, false, not, ◌&&◌, ◌||◌, Option, none, some, List, [], ◌∷◌, ◌++◌, Bytes, bytes, same,
  is_empty, has_suffix, trim_space, contains_any, if◌then◌else◌, Result, ok, err, ◌>>=◌,
}
use tailclip.Http.{Request, values, get_header, Parsers, bearer_matches}
use tailclip.Config.Settings.{Config}
use tailclip.Api.{Refusal, OwnerIdentity}

abbrev pub client_header : Bytes
client_header = bytes "X-Tailblink-Client"

abbrev pub client_version : Bytes
client_version = bytes "shortcuts-v2"

abbrev pub unsafe_characters : Bytes
unsafe_characters = b'\r' ∷ b'\n' ∷ 0 ∷ []

abbrev pub not_paired : Refusal
not_paired = record { status = 401; code = "not_paired"; message = "配對已失效，請在電腦上重新顯示配對 QR。" }

abbrev pub not_shortcut : Refusal
not_shortcut = record {
  status = 403;
  code = "request_not_allowed";
  message = "請使用 TailBlink 捷徑操作。";
}

abbrev pub not_local : Refusal
not_local = record { status = 403; code = "request_not_allowed"; message = "請透過 Tailscale 連接這台電腦。" }

abbrev pub no_login : Refusal
no_login = record {
  status = 401;
  code = "identity_required";
  message = "無法辨識 Tailscale 帳號，請確認已登入自己的帳號。";
}

abbrev pub bad_login : Refusal
bad_login = record { status = 401; code = "identity_required"; message = "Tailscale 身分資料無效。" }

abbrev pub no_owner : Refusal
no_owner = record {
  status = 403;
  code = "identity_unavailable";
  message = "這台電腦尚無法使用免 QR 連接，原配對仍可使用。";
}

abbrev pub unknown_owner : Refusal
unknown_owner = record {
  status = 403;
  code = "identity_unavailable";
  message = "無法確認電腦的 Tailscale 帳號，原配對仍可使用。";
}

abbrev pub wrong_host : Refusal
wrong_host = record {
  status = 403;
  code = "request_not_allowed";
  message = "請使用這台電腦的 Tailscale HTTPS 位址。";
}

abbrev pub access_denied : Refusal
access_denied = record {
  status = 403;
  code = "access_denied";
  message = "請在手機與電腦使用相同的 Tailscale 帳號。";
}

abbrev pub guard : Bool → Refusal → Result Refusal (Unit {0})
guard true e = ok tt
guard false e = err e

abbrev pub or_refuse {ℓ} : {A : Type ℓ} → Option A → Refusal → Result Refusal A
or_refuse none e = err e
or_refuse (some a) e = ok a

unfoldable pub authorized : Config → Request → Bool
authorized cfg r = bearer_matches (get_header (bytes "Authorization") r.header) cfg.pairing_token

-- The only value of a header that must be sent once and must not be empty.
unfoldable pub only_value : List Bytes → Option Bytes
only_value [] = none
only_value (v ∷ []) = if is_empty v then none else some v
only_value (v ∷ w ∷ vs) = none

unfoldable pub is_login : Bytes → Bool
is_login login =
    not (is_empty login)
    && same (trim_space login) login
    && not (contains_any login unsafe_characters)

unfoldable pub remote_is_local : Parsers → Request → Bool
remote_is_local p r = elim (p.split_host r.remote_addr) [ none ↦ false | some h ↦ p.is_loopback h ]

unfoldable pub is_shortcut : List Bytes → Request → Bool
is_shortcut markers r = elim markers [
  | [] ↦ false
  | m ∷ more ↦
      is_empty more
      && same m client_version
      && is_empty (values (bytes "Origin") r.header)
      && is_empty (values (bytes "Sec-Fetch-Site") r.header)
]

-- An owner that can be relied on: the call succeeded, with a login and a ts.net name.
unfoldable pub known_owner : Option (Bytes × Bytes) → Option (Bytes × Bytes)
known_owner none = none
known_owner (some (login, dns)) =
    if is_empty login || not (has_suffix dns (bytes ".ts.net")) then none else some (login, dns)

unfoldable pub is_own_host : Bytes → Bytes → Bool
is_own_host host dns = same host dns || same host (dns ++ bytes ":443")

unfoldable pub by_identity :
    Parsers → Option OwnerIdentity → List Bytes → Request → Result Refusal (Unit {0})
by_identity p owner markers r = do
  _ ← guard (is_shortcut markers r) not_shortcut
  _ ← guard (remote_is_local p r) not_local
  value ← or_refuse (only_value (values (bytes "Tailscale-User-Login") r.header)) no_login
  login ← or_refuse (p.decode_word value) bad_login
  _ ← guard (is_login login) bad_login
  ask ← or_refuse owner no_owner
  own ← or_refuse (known_owner (ask r.ctx)) unknown_owner
  _ ← guard (is_own_host r.host own.1) wrong_host
  guard (same login own.0) access_denied

unfoldable pub by_token : Config → Request → Result Refusal (Unit {0})
by_token cfg r = guard (authorized cfg r) not_paired

-- A request that carries the marker of the new shortcuts is never judged by an old token.
unfoldable pub authorize :
    Parsers → Config → Option OwnerIdentity → Request → Result Refusal (Unit {0})
authorize p cfg owner r =
    let markers = values client_header r.header in
    if is_empty markers then by_token cfg r else by_identity p owner markers r
