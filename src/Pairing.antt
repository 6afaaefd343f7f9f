-- ===== src/Pairing.antt =====
-- internal/pairing/manager.go: the sessions behind the pairing QR of the Tailscale entry. The clock,
-- the random bytes and `url.Parse` are arguments; the mutex makes each call one step.
pub mod Sessions
use tailclip.Base.{
  ℕ, ◌+◌, ◌*◌, Bool, ◌&&◌, ◌||◌, not, Option, none, some, ◌++◌, [], ◌∷◌, Bytes, bytes, same,
  is_empty, trim_space, to_lower, has_suffix, leb, ltb, ◌==◌, if◌then◌else◌, Result, ok, err, ◌>>=◌,
}
use tailclip.Base.Map.{Map, get, put, delete, keep}
use tailclip.Config.Base64.{encode}

-- A time in nanoseconds: 15 minutes.
abbrev pub session_lifetime : ℕ
session_lifetime = 15 * 60 * 1_000_000_000

pub data PairingError : Type 0 where
  incomplete invalid_base_url no_random : PairingError

-- The fields are those of the JSON text that the phone is given.
pub record Data : Type 0 where
  pub version : ℕ
  pub base_url : Bytes
  pub token : Bytes
  pub device_name : Bytes
  pub tailscale_device : Bytes

pub record Session : Type 0 where
  pub nonce : Bytes
  pub expires_at : ℕ
  pub contents : Data

abbrev pub Manager : Type 0
Manager = Map Session

abbrev pub new_manager : Manager
new_manager = []

-- What `url.Parse` and the methods of `url.URL` tell of an address.
pub record Url : Type 0 where
  pub scheme : Bytes
  pub has_user : Bool
  pub hostname : Bytes
  pub path : Bytes
  pub raw_query : Bytes
  pub fragment : Bytes

unfoldable pub check_url : Option Url → Result PairingError (Unit {0})
check_url none = err invalid_base_url
check_url (some u) =
    if not (same u.scheme (bytes "https"))
      || u.has_user
      || not (is_empty u.raw_query)
      || not (is_empty u.fragment)
    then err invalid_base_url
    else if not (has_suffix (to_lower u.hostname) (bytes ".ts.net"))
        || not (same u.path (bytes "/tailblink/v1"))
    then err invalid_base_url
    else ok tt

-- `session.ExpiresAt.After(now)`.
abbrev pub live : ℕ → Session → Bool
live now s = ltb now s.expires_at

module _ (parse_url : Bytes → Option Url) where
  unfoldable pub validate_data : Data → Result PairingError (Unit {0})
  validate_data d =
      if not (d.version == 1) || is_empty d.token || is_empty (trim_space d.device_name)
      then err incomplete
      else check_url (parse_url d.base_url)

  draw : Option Bytes → Result PairingError Bytes
  draw none = err no_random
  draw (some raw) = ok raw

  -- `raw` are the random bytes of the nonce.
  unfoldable pub create :
      ℕ → Option Bytes → Data → Manager → Result PairingError (Session × Manager)
  unfolding draw
  create now raw d m = do
    _ ← validate_data d
    bits ← draw raw
    let s : Session = record {
      nonce = encode bits;
      expires_at = now + session_lifetime;
      contents = d;
    }
    ok (s, put s.nonce s (keep (live now) m))

found : ℕ → Bytes → Manager → Option Session → Option Session × Manager
found now nonce m none = (none, m)
found now nonce m (some s) = if not (live now s) then (none, delete nonce m) else (some s, m)

unfoldable pub lookup : ℕ → Bytes → Manager → Option Session × Manager
unfolding found
lookup now nonce m = found now nonce m (get nonce m)
