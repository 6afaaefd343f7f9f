-- ===== src/Config/Settings.antt =====
-- internal/config/config.go: `Config`, `Mode`, `Validate`, the tokens and `RotateToken`.
-- A draw of random bytes is an argument: `none` is a failure of `rand.Read`. The version, an `int`
-- that is only compared with 1, is a natural number here.
use tailclip.Base.{
  ℕ, ◌≡◌, Bool, true, false, not, ◌&&◌, Option, none, some, [], ◌∷◌, arith, Bytes, bytes, same,
  length, is_empty, trim_space, contains_any, ◌==◌, if◌then◌else◌, Result, ok, err, ◌>>=◌,
}
use tailclip.Config.Base64.{encode, decode, AreBytes, decode-encode}

abbrev pub current_version : ℕ
current_version = 1

abbrev pub token_bytes : ℕ
token_bytes = 32

pub record Config : Type 0 where
  pub version : ℕ
  pub device_name : Bytes
  pub tailscale_device : Bytes
  pub pairing_token : Bytes
  pub connection_mode : Bytes

-- The errors of the package, by what went wrong. `unsupported_version` carries the version.
pub data ConfigError : Type 0 where
  bad_mode blank_name name_has_break bad_token : ConfigError
  unsupported_version : ℕ → ConfigError
  no_random : ConfigError
  not_exist unreadable malformed trailing_data : ConfigError
  no_directory no_permission no_temp no_write no_sync no_close no_replace : ConfigError

unfoldable pub mode : Config → Bytes
mode c = if is_empty c.connection_mode then bytes "tailscale" else c.connection_mode

unfoldable pub valid_token : Bytes → Bool
valid_token t = elim (decode t) [ none ↦ false | some raw ↦ length raw == token_bytes ]

unfoldable pub generate_token : Option Bytes → Result ConfigError Bytes
generate_token none = err no_random
generate_token (some raw) = ok (encode raw)

unfoldable pub validate : Config → Result ConfigError (Unit {0})
validate c =
    if not (same (mode c) (bytes "tailscale"))
      && not (same (mode c) (bytes "simple"))
      && not (same (mode c) (bytes "choose"))
    then err bad_mode
    else if not (c.version == current_version)
    then err (unsupported_version c.version)
    else if is_empty (trim_space c.device_name)
    then err blank_name
    else if contains_any c.device_name (b'\r' ∷ b'\n' ∷ [])
    then err name_has_break
    else if not (valid_token c.pairing_token)
    then err bad_token
    else ok tt

unfoldable pub rotate_token : Option Bytes → Config → Result ConfigError Config
rotate_token raw c = do token ← generate_token raw; ok (record c { pairing_token = token })

-- Every token that the program makes passes its own check.
pub generate_token-valid_token :
    (raw : Bytes) (token : Bytes)
    → AreBytes raw
    → length raw ≡ token_bytes
    → generate_token (some raw) ≡ ok token
    → valid_token token ≡ true
unfolding generate_token valid_token
generate_token-valid_token raw token h n e = ground (arith, decode-encode raw h)

-- A rotation that draws 32 bytes keeps a valid configuration valid, in its mode and with its name.
pub rotate_token-validate :
    (raw : Bytes) (c d : Config)
    → AreBytes raw
    → length raw ≡ token_bytes
    → validate c ≡ ok tt
    → rotate_token (some raw) c ≡ ok d
    → (validate d ≡ ok tt) × (mode d ≡ mode c) × (d.device_name ≡ c.device_name)
unfolding rotate_token validate mode
rotate_token-validate raw c d h n v e =
    ground (arith, generate_token-valid_token raw d.pairing_token h n)
