-- ===== src/Tunnel.antt =====
-- internal/tunnel: the program cloudflared that comes with the release (binary.go), here; the process
-- that it runs as (process.go and process_windows.go), in Process; its output, in Output.
pub mod Install
pub mod Output
pub mod Process
pub mod Handover
use tailclip.Base.{
  Bool, true, false, Option, none, some, [], ◌∷◌, ◌++◌, Bytes, bytes, same, if◌then◌else◌, Result,
  ok, err, ◌>>=◌,
}
use tailclip.Base.Map.{Map, get, put, delete}

pub data TunnelError : Type 0 where
  bad_manifest no_binary missing mismatch system : TunnelError
  canceled not_loopback not_started not_managed ended timed_out : TunnelError

pub record Binary : Type 0 where
  pub filename : Bytes
  pub sha256 : Bytes

-- The directory tree: what the files hold.
abbrev pub Disk : Type 0
Disk = Map Bytes

-- The embedded manifest, `none` if it is no JSON of its form, by the name of the platform.
abbrev pub Manifest : Type 0
Manifest = Option (Map Binary)

abbrev pub Done : Type 0
Done = Result TunnelError (Unit {0})

unfoldable pub current_binary : Manifest → Bytes → Result TunnelError Binary
current_binary none platform = err bad_manifest
current_binary (some assets) platform = elim (get platform assets) [
  | none ↦ err no_binary
  | some b ↦ ok b
]

-- `filepath.Join` of a clean directory and a file's name.
abbrev pub join : Bytes → Bytes → Bytes
join dir name = dir ++ (b'/' ∷ name)

-- What the calls of one installation do. `opened` is what the source holds when it is copied, which
-- need not be what was checked before; `partial` is what a failed copy leaves.
pub record Calls : Type 0 where
  pub temp_name : Bytes
  pub opened : Option Bytes
  pub partial : Bytes
  pub mkdir : Bool
  pub create_temp : Bool
  pub chmod : Bool
  pub copy : Bool
  pub sync : Bool
  pub close : Bool
  pub rename : Bool
  pub remove : Bool

-- `defer os.Remove(out.Name())`, whose own failure is ignored.
unfoldable pub removing : Calls → Done × Disk → Done × Disk
removing c (r, d) = (r, if c.remove then d else delete c.temp_name d)

-- `digest` is the SHA-256 in hexadecimal digits.
module _ (digest : Bytes → Bytes) (manifest : Manifest) (platform : Bytes) where
  unfoldable pub verify : Bytes → Disk → Done
  unfolding current_binary
  verify path d = current_binary manifest platform >>= λ b. elim (get path d) [
    | none ↦ err missing
    | some content ↦ if same (digest content) b.sha256 then ok tt else err mismatch
  ]

  -- The argument is the directory of the running program, `none` if it is not known.
  unfoldable pub binary_path : Option Bytes → Disk → Result TunnelError Bytes
  binary_path none d = err system
  binary_path (some dir) d = current_binary manifest platform >>= λ b.
      let p = join dir b.filename in verify p d >>= λ _. ok p

  -- From the created temporary file to the renaming. A failed call is `true`.
  unfoldable pub fill : Calls → Bytes → Bytes → Disk → Done × Disk
  fill c target content d =
      let t = c.temp_name in
      let full = put t content d in
      if c.chmod
      then (err system, d)
      else if c.copy
      then (err system, put t c.partial d)
      else if c.sync
      then (err system, full)
      else if c.close
      then (err system, full)
      else elim (verify t full) [
        | err e ↦ (err e, full)
        | ok _ ↦
            if c.rename then (err system, full) else (ok tt, put target content (delete t full))
      ]

  unfoldable pub install_into : Calls → Bytes → Bytes → Disk → Done × Disk
  install_into c source target d = elim (verify target d) [
    | ok _ ↦ (ok tt, d)
    | err _ ↦ elim (verify source d) [
      | err e ↦ (err e, d)
      | ok _ ↦ if c.mkdir then (err system, d) else elim c.opened [
        | none ↦ (err system, d)
        | some content ↦
            if c.create_temp
            then (err system, d)
            else removing c (fill c target content (put c.temp_name [] d))
      ]
    ]
  ]

  unfoldable pub install_companion : Calls → (source_dir target_dir : Bytes) → Disk → Done × Disk
  install_companion c source_dir target_dir d = elim (current_binary manifest platform) [
    | err e ↦ (err e, d)
    | ok b ↦ install_into c (join source_dir b.filename) (join target_dir b.filename) d
  ]
