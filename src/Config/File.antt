-- ===== src/Config/File.antt =====
-- internal/config/config.go: `Load`, `LoadOrCreate`, `Save` and `ensureJSONEOF`, over a disk with
-- the settings file and the temporary file that `Save` writes. `encoding/json` is a parameter. Each
-- system call may fail, as the environment chooses; one that fails changes nothing. What a failed
-- write leaves in the temporary file is not kept, since that file is removed on every path.
use tailclip.Base.{
  ℕ, suc, Bool, true, false, not, ◌&&◌, Option, none, some, [], ◌∷◌, ◌++◌, Bytes, bytes, is_empty,
  trim_space, trim_suffix, take, ltb, ◌==◌, if◌then◌else◌, Result, ok, err,
}
use tailclip.Config.Settings.{
  Config, ConfigError, current_version, validate, generate_token, not_exist, unreadable, malformed,
  trailing_data, no_directory, no_permission, no_temp, no_write, no_sync, no_close, no_replace,
}

-- What stands behind the first value of a JSON text.
pub data Rest : Type 0 where
  at_end bad_rest other_value : Rest

-- `encoding/json`: `decode` reads the first value as a `Config`, with unknown fields disallowed, and
-- gives the rest; `rest` reads on.
pub record Codec : Type 0 where
  pub encode : Config → Bytes
  pub decode : Bytes → Option (Config × Bytes)
  pub rest : Bytes → Rest

-- `content` is the settings file; `temp` is the temporary file. `locked`: the file cannot be read.
pub record Disk : Type 0 where
  pub content : Option Bytes
  pub temp : Option Bytes
  pub locked : Bool

-- Which calls of one `Save` fail.
pub record Faults : Type 0 where
  pub windows : Bool
  pub mkdir : Bool
  pub chmod_dir : Bool
  pub create_temp : Bool
  pub chmod_temp : Bool
  pub write : Bool
  pub sync : Bool
  pub close : Bool
  pub replace : Bool
  pub chmod_file : Bool

abbrev pub M : Type 0 → Type 0
M A = Disk → Result ConfigError A × Disk

abbrev bind_step :
    {A B : Type 0} → Result ConfigError A × Disk → (A → M B) → Result ConfigError B × Disk
bind_step (ok a, d) f = f a d
bind_step (err e, d) f = (err e, d)

infixl 5 ◌>>=◌ ◌>>◌
abbrev ◌>>=◌ : {A B : Type 0} → M A → (A → M B) → M B
◌>>=◌ m f d = bind_step (m d) f

abbrev ◌>>◌ : {B : Type 0} → M (Unit {0}) → M B → M B
m >> k = m >>= λ _. k

abbrev return : {A : Type 0} → A → M A
return a d = (ok a, d)

abbrev lift : {A : Type 0} → Result ConfigError A → M A
lift r d = (r, d)

abbrev call : Bool → ConfigError → (Disk → Disk) → M (Unit {0})
call fails e effect d = if fails then (err e, d) else (ok tt, effect d)

-- `defer os.Remove(tmpName)`.
abbrev removing_temp : {A : Type 0} → M A → M A
removing_temp m d = let (r, d') = m d in (r, record d' { temp = none })

index_byte : ℕ → Bytes → Option ℕ
index_byte b [] = none
index_byte b (c ∷ s) =
    if c == b then some 0 else elim (index_byte b s) [ none ↦ none | some i ↦ some (suc i) ]

-- "TailBlink 電腦".
abbrev pub fallback_name : Bytes
fallback_name = bytes "TailBlink " ++ (0xe9 ∷ 0x9b ∷ 0xbb ∷ 0xe8 ∷ 0x85 ∷ 0xa6 ∷ [])

-- The argument is what `os.Hostname` gives, `none` on an error.
unfoldable pub usable_name : Option Bytes → Bytes
usable_name none = fallback_name
usable_name (some h) = if is_empty (trim_space h) then fallback_name else h

unfoldable pub device_name : Option Bytes → Bytes
unfolding index_byte usable_name
device_name hostname =
    let h = trim_suffix (trim_space (usable_name hostname)) (bytes ".") in
    elim (index_byte b'.' h) [ none ↦ h | some dot ↦ if ltb 0 dot then take dot h else h ]

abbrev pub fresh_config : Bytes → Bytes → Config
fresh_config name token = record {
  version = current_version;
  device_name = name;
  tailscale_device = name;
  pairing_token = token;
  connection_mode = bytes "choose";
}

module _ (codec : Codec) where
  unfoldable pub ensure_json_eof : Bytes → Result ConfigError (Unit {0})
  ensure_json_eof s = elim (codec.rest s) [
    | at_end ↦ ok tt
    | bad_rest ↦ err malformed
    | other_value ↦ err trailing_data
  ]

  pub read_file : M Bytes
  read_file d =
      if d.locked
      then (err unreadable, d)
      else elim d.content [ none ↦ (err not_exist, d) | some s ↦ (ok s, d) ]

  pub decode_config : Bytes → Result ConfigError (Config × Bytes)
  decode_config s = elim (codec.decode s) [ none ↦ err malformed | some p ↦ ok p ]

  unfoldable pub load : M Config
  unfolding read_file decode_config
  load = do
    data' ← read_file
    decoded ← lift (decode_config data')
    _ ← lift (ensure_json_eof decoded.1)
    _ ← lift (validate decoded.0)
    return decoded.0

  unfoldable pub save : Faults → Config → M (Unit {0})
  save f cfg = do
    lift (validate cfg)
    call f.mkdir no_directory (λ d. d)
    call (f.chmod_dir && not f.windows) no_permission (λ d. d)
    call f.create_temp no_temp (λ d. record d { temp = some [] })
    removing_temp (do
      call (f.chmod_temp && not f.windows) no_permission (λ d. d)
      call f.write no_write (λ d. record d { temp = some (codec.encode cfg ++ b'\n' ∷ []) })
      call f.sync no_sync (λ d. d)
      call f.close no_close (λ d. d)
      call f.replace no_replace (λ d. record d { content = d.temp; temp = none })
      call (f.chmod_file && not f.windows) no_permission (λ d. d))

  unfoldable pub create_config : Faults → Option Bytes → Option Bytes → M (Config × Bool)
  create_config f hostname raw = do
    token ← lift (generate_token raw)
    save f (fresh_config (device_name hostname) token)
    return (fresh_config (device_name hostname) token, true)

  unfoldable pub or_create :
      M (Config × Bool)
      → Result ConfigError Config × Disk
      → Result ConfigError (Config × Bool) × Disk
  or_create create (ok cfg, d) = (ok (cfg, false), d)
  or_create create (err not_exist, d) = create d
  or_create create (err e, d) = (err e, d)

  unfoldable pub load_or_create : Faults → Option Bytes → Option Bytes → M (Config × Bool)
  unfolding create_config or_create
  load_or_create f hostname raw d = or_create (create_config f hostname raw) (load d)
