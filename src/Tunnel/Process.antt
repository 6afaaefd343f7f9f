-- ===== src/Tunnel/Process.antt =====
-- internal/tunnel/process.go and process_windows.go: `startBinary`, `Close`, `prepareProcess` and
-- `attachProcess`, over what the calls of the system answer. Their log has what is taken and given
-- back: the temporary directory, the job object, the process. What the code drops, the errors of
-- `os.RemoveAll`, `CloseHandle` and `Process.Kill`, is no answer here: the log has the calls.
pub mod Resources
use tailclip.Base.{
  ℕ, suc, ◌+◌, ◌-◌, ◌≡◌, ◌≢◌, refl, Result-cases, inl, inr, ◌⊎◌, Bool, true, false, not, ◌&&◌, ◌||◌,
  Option, none, some, List, [], ◌∷◌, ◌++◌, Bytes, bytes, arith, map, same, has_prefix, is_empty,
  leb, if◌then◌else◌, is_some, Result, ok, err,
}
use tailclip.Tunnel.{
  Disk, Manifest, binary_path, verify, current_binary, join, TunnelError, system, canceled,
  not_loopback, not_started, not_managed, ended, timed_out,
}

-- `strings.ToUpper`, on the ASCII letters. The prefixes that the result is compared with have no
-- letter that is also the capital of a letter outside ASCII.
unfoldable pub to_upper : Bytes → Bytes
to_upper = map (λ c. if leb b'a' c && leb c b'z' then c - 32 else c)

-- The variables that would configure the program.
unfoldable pub is_foreign : Bytes → Bool
is_foreign e =
    let upper = to_upper e in
    has_prefix upper (bytes "TUNNEL_") || has_prefix upper (bytes "CLOUDFLARED_")

unfoldable pub environment : List Bytes → List Bytes
environment [] = []
environment (e ∷ es) = let rest = environment es in if is_foreign e then rest else e ∷ rest

-- What the program gets: an empty `cmd.Env` is nil, with which it gets the variables of this process.
unfoldable pub passed : List Bytes → List Bytes
passed vs = let kept = environment vs in if is_empty kept then vs else kept

-- `filepath.Join(dir, "config.yml")`.
abbrev pub config_path : Bytes → Bytes
config_path dir = dir ++ bytes "/config.yml"

unfoldable pub arguments : (dir address : Bytes) → List Bytes
arguments dir address =
    bytes "tunnel"
    ∷ bytes "--config"
    ∷ config_path dir
    ∷ bytes "--no-autoupdate"
    ∷ bytes "--url"
    ∷ (bytes "http://" ++ address)
    ∷ bytes "--metrics"
    ∷ bytes "127.0.0.1:0"
    ∷ bytes "--protocol"
    ∷ bytes "http2"
    ∷ []

-- What the `select` of `startBinary` receives first.
pub data Wait : Type 0 where
  got : Bytes → Wait
  exited cancelled late : Wait

-- What the calls of one start answer; a failed call is `true`. `split` is what `net.SplitHostPort`
-- gives for the address.
pub record Answers : Type 0 where
  pub context_over : Bool
  pub split : Option (Bytes × Bytes)
  pub mkdir : Option Bytes
  pub write_config : Bool
  pub create_job : Bool
  pub limit_job : Bool
  pub start : Bool
  pub open_process : Bool
  pub assign : Bool
  pub wait : Wait

pub data Event : Type 0 where
  made_dir removed_dir made_job closed_job : Event
  started : (arguments variables : List Bytes) → Event
  killed reaped opened_handle closed_handle : Event

abbrev pub Log : Type 0
Log = List Event

-- `prepareProcess` on Windows; elsewhere it takes nothing and does not fail.
unfoldable pub prepare_process : Answers → Bool × Log
prepare_process a =
    if a.create_job
    then (false, [])
    else if a.limit_job
    then (false, made_job ∷ closed_job ∷ [])
    else (true, made_job ∷ [])

unfoldable pub attach_process : Answers → Bool × Log
attach_process a =
    if a.open_process then (false, []) else (not a.assign, opened_handle ∷ closed_handle ∷ [])

-- The goroutine that waits for the process, once it is over.
abbrev pub watcher : Log
watcher = reaped ∷ closed_job ∷ removed_dir ∷ []

-- A process that runs, or the log of its end, of which `once` makes one at most.
pub record Process : Type 0 where
  pub url : Bytes
  pub closed : Bool

-- `Close`: kills the process, and waits for the goroutine.
unfoldable pub close : Process → Process × Log
close p = if p.closed then (p, []) else (record p { closed = true }, killed ∷ watcher)

unfoldable pub await : Wait → Result TunnelError Process × Log
await (got u) = (ok (record { url = u; closed = false }), [])
await exited = (err ended, watcher)
await cancelled = (err canceled, killed ∷ watcher)
await late = (err timed_out, killed ∷ watcher)

-- Behind the temporary directory.
unfoldable pub launch :
    Answers → (dir address : Bytes) → List Bytes → Result TunnelError Process × Log
launch a dir address variables =
    let (prepared, job) = prepare_process a in
    let (attached, handle) = attach_process a in
    let (result, over) = await a.wait in
    let run = started (arguments dir address) (passed variables) in
    if not prepared
    then (err system, job ++ removed_dir ∷ [])
    else if a.start
    then (err not_started, job ++ closed_job ∷ removed_dir ∷ [])
    else if not attached
    then (err not_managed, job ++ run ∷ (handle ++ killed ∷ watcher))
    else (result, job ++ run ∷ (handle ++ over))

unfoldable pub is_loopback : Option (Bytes × Bytes) → Bool
is_loopback none = false
is_loopback (some (host, port)) = same host (bytes "127.0.0.1")

unfoldable pub start_binary :
    Answers → (address : Bytes) → List Bytes → Result TunnelError Process × Log
start_binary a address variables =
    if a.context_over
    then (err canceled, [])
    else if not (is_loopback a.split)
    then (err not_loopback, [])
    else elim a.mkdir [
      | none ↦ (err system, [])
      | some dir ↦
          if a.write_config
          then (err system, made_dir ∷ removed_dir ∷ [])
          else let (r, log) = launch a dir address variables in (r, made_dir ∷ log)
    ]

-- `Start`: `directory` is that of the running program; the program that is started is the checked one
-- beside it.
unfoldable pub start :
    (digest : Bytes → Bytes)
    → Manifest
    → (platform : Bytes) → (directory : Option Bytes) → Disk
    → Answers
    → (address : Bytes) → List Bytes
    → Result TunnelError Process × Log
start digest manifest platform directory d a address variables =
    elim (binary_path digest manifest platform directory d) [
      | err e ↦ (err e, [])
      | ok binary ↦ start_binary a address variables
    ]

binary_path_sound :
    (digest : Bytes → Bytes) (manifest : Manifest) (platform : Bytes) (directory : Option Bytes)
    (d : Disk) (binary : Bytes)
    → binary_path digest manifest platform directory d ≡ ok binary
    → verify digest manifest platform binary d ≡ ok tt
unfolding binary_path
binary_path_sound digest manifest platform none d binary h = cc
binary_path_sound digest manifest platform (some dir) d binary h =
    elim (Result-cases (current_binary manifest platform)) [
      | inl (b, e) ↦ elim (Result-cases (verify digest manifest platform (join dir b.filename) d)) [
        | inl (_, f) ↦ ground arith
        | inr (x, f) ↦ ground arith
      ]
      | inr (x, e) ↦ ground arith
    ]

-- Nothing is taken or run unless the program beside the running one has the pinned digest.
pub start_checked :
    (digest : Bytes → Bytes) (manifest : Manifest) (platform : Bytes) (directory : Option Bytes)
    (d : Disk) (a : Answers) (address : Bytes) (variables : List Bytes)
    → (start digest manifest platform directory d a address variables).1 ≢ []
    → (binary : Bytes) × (verify digest manifest platform binary d ≡ ok tt)
unfolding start
start_checked digest manifest platform directory d a address variables h =
    elim (Result-cases (binary_path digest manifest platform directory d)) [
      | inl (binary, e) ↦ (binary, binary_path_sound digest manifest platform directory d binary e)
      | inr (x, e) ↦ ground arith
    ]
