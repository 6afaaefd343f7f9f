-- ===== src/Simple/Start.antt =====
-- internal/simple/service.go: `Start`, `verify` and `validHost`. `Start` runs under the lock
-- `lifecycle` and takes the lock of the state for each of the phases below; between two phases
-- requests are served. `start` runs the phases in a row.
use tailclip.Base.{
  ℕ, ◌==◌, Bool, true, false, not, ◌&&◌, ◌||◌, Option, none, some, List, [], ◌∷◌, Bytes, bytes,
  length, reverse, same, is_empty, is_none, ltb, leb, has_suffix, trim_suffix, if◌then◌else◌,
  Result, ok, err,
}
use tailclip.Simple.{
  SimpleError, no_port, not_started, bad_url, not_reachable, tunnel_ended, Runtime, Service, draw,
  set_credential, clear,
}

abbrev pub tunnel_suffix : Bytes
tunnel_suffix = bytes ".trycloudflare.com"

unfoldable pub is_label_byte : ℕ → Bool
is_label_byte c = (leb b'a' c && leb c b'z') || (leb b'0' c && leb c b'9') || c == b'-'

unfoldable pub are_label_bytes : Bytes → Bool
unfolding is_label_byte
are_label_bytes [] = true
are_label_bytes (c ∷ s) = is_label_byte c && are_label_bytes s

unfoldable pub starts_with_dash : Bytes → Bool
starts_with_dash [] = false
starts_with_dash (c ∷ s) = c == b'-'

unfoldable pub is_label : Bytes → Bool
unfolding are_label_bytes starts_with_dash
is_label s =
    not (is_empty s || ltb 63 (length s) || starts_with_dash s || starts_with_dash (reverse s))
    && are_label_bytes s

unfoldable pub valid_host : Bytes → Bool
unfolding is_label
valid_host host = has_suffix host tunnel_suffix && is_label (trim_suffix host tunnel_suffix)

-- The address of the tunnel as `url.Parse` reads it.
pub record TunnelUrl : Type 0 where
  pub scheme : Bytes
  pub host : Bytes
  pub path : Bytes
  pub raw_query : Bytes
  pub has_user : Bool
  pub fragment : Bytes

unfoldable pub valid_url : TunnelUrl → Bool
valid_url u =
    same u.scheme (bytes "https")
    && valid_host u.host
    && is_empty u.path
    && is_empty u.raw_query
    && not u.has_user
    && is_empty u.fragment

-- How the pause behind a probe ends.
pub data Pause : Type 0 where
  again timed_out tunnel_done : Pause

-- One request for the public health address: whether there was a response, its status, and the
-- fields `session` and `service` if its body could be read.
pub record Probe : Type 0 where
  pub reached : Bool
  pub status : ℕ
  pub body : Option (Bytes × Bytes)
  pub pause : Pause

unfoldable pub is_own_health : Bytes → Probe → Bool
is_own_health session p = elim p.body [
  | none ↦ false
  | some (found, service) ↦
      p.reached && p.status == 200 && same service (bytes "tailblink-simple") && same found session
]

-- The probes are those that fit into the ninety seconds of the context.
unfoldable pub verify : Bytes → List Probe → Result SimpleError (Unit {0})
verify session [] = err not_reachable
verify session (p ∷ ps) =
    let rest : Result SimpleError (Unit {0}) = elim p.pause [
      | again ↦ verify session ps
      | timed_out ↦ err not_reachable
      | tunnel_done ↦ err tunnel_ended
    ] in
    if is_own_health session p then ok tt else rest

-- What `Start` meets: whether the tunnel that runs has ended, the two draws, whether a port was
-- found, the tunnel that was started with its address, and the probes.
pub record Conditions : Type 0 where
  pub ended : Bool
  pub session_bits : Option Bytes
  pub token_bits : Option Bytes
  pub port : Bool
  pub tunnel : Option Runtime
  pub address : Option TunnelUrl
  pub probes : List Probe

unfoldable pub is_running : Conditions → Service → Bool
is_running c s = not (is_none s.runtime) && s.ready && not c.ended

unfoldable pub begin_start : Service → Service
begin_start s = clear (record s { runtime = none })

unfoldable pub enter_credential : Bytes → Bytes → Service → Service
enter_credential session token s = set_credential token (record s { session = session })

unfoldable pub enter_host : Runtime → Bytes → Service → Service
enter_host rt host s = record s { host = host; runtime = some rt }

same_runtime : Option Runtime → Runtime → Bool
same_runtime none rt = false
same_runtime (some r) rt = r.id == rt.id

-- After a failed verification.
unfoldable pub drop_runtime : Runtime → Service → Service
unfolding same_runtime
drop_runtime rt s = if same_runtime s.runtime rt then clear (record s { runtime = none }) else s

unfoldable pub become_ready : Service → Service
become_ready s = record s { ready = true }

-- When a tunnel has ended by itself.
unfoldable pub tunnel_over : Runtime → Service → Service
unfolding same_runtime
tunnel_over rt s = if same_runtime s.runtime rt then clear s else s

verified :
    Runtime → Service → Result SimpleError (Unit {0}) → Result SimpleError (Unit {0}) × Service
verified rt s (err e) = (err e, drop_runtime rt s)
verified rt s (ok _) = (ok tt, become_ready s)

hosted : Conditions → Bytes → Runtime → Service → Result SimpleError (Unit {0}) × Service
unfolding verified
hosted c session rt s = elim c.address [
  | none ↦ (err bad_url, clear s)
  | some u ↦
      if not (valid_url u)
      then (err bad_url, clear s)
      else verified rt (enter_host rt u.host s) (verify session c.probes)
]

tunnelled : Conditions → Bytes → Service → Result SimpleError (Unit {0}) × Service
unfolding hosted
tunnelled c session s = elim c.tunnel [
  | none ↦ (err not_started, clear s)
  | some rt ↦ hosted c session rt s
]

opened : Conditions → Bytes → Bytes → Service → Result SimpleError (Unit {0}) × Service
unfolding tunnelled
opened c session token s =
    if not c.port then (err no_port, s) else tunnelled c session (enter_credential session token s)

drawn :
    Conditions
    → Service
    → Result SimpleError Bytes
    → Result SimpleError Bytes
    → Result SimpleError (Unit {0}) × Service
unfolding opened
drawn c s (err e) token = (err e, s)
drawn c s (ok session) (err e) = (err e, s)
drawn c s (ok session) (ok token) = opened c session token s

unfoldable pub start : Conditions → Service → Result SimpleError (Unit {0}) × Service
unfolding drawn
start c s =
    if is_running c s
    then (ok tt, s)
    else drawn c (begin_start s) (draw c.session_bits) (draw c.token_bits)
