-- ===== src/Tailscale.antt =====
-- internal/tailscale/client.go. The command `tailscale` is a runner over a state of its own: it is
-- outside this repository, as is the JSON that it prints, which two parsers read. Contexts and their
-- time limits show as failures of a command.
pub mod Ownership
pub mod Cli
use tailclip.Base.{
  ℕ, ◌+◌, ◌==◌, Bool, true, false, not, ◌&&◌, ◌||◌, Option, none, some, List, [], ◌∷◌, ◌++◌, Bytes,
  bytes, same, is_empty, trim_space, trim_suffix, to_lower, has_suffix, contains_any, if◌then◌else◌,
  Result, ok, err, ltb,
}
use tailclip.Api.Identity.{unsafe_characters}

abbrev pub serve_path : Bytes
serve_path = bytes "/tailblink"

abbrev pub agent_target : Bytes
agent_target = bytes "http://127.0.0.1:17733"

pub data TailscaleError : Type 0 where
  not_installed not_running command_failed bad_output unknown_owner unhealthy : TailscaleError
  serve_conflict : (target : Bytes) → TailscaleError

-- The commands that the client runs, and their arguments.
pub data Command : Type 0 where
  get_status get_serve set_serve unset_serve : Command

unfoldable pub arguments : Command → List Bytes
arguments get_status = bytes "status" ∷ bytes "--json" ∷ []
arguments get_serve = bytes "serve" ∷ bytes "status" ∷ bytes "--json" ∷ []
arguments set_serve =
    bytes "serve"
    ∷ bytes "--bg"
    ∷ bytes "--yes"
    ∷ bytes "--https=443"
    ∷ (bytes "--set-path=" ++ serve_path)
    ∷ agent_target
    ∷ []
arguments unset_serve =
    bytes "serve"
    ∷ bytes "--yes"
    ∷ bytes "--https=443"
    ∷ (bytes "--set-path=" ++ serve_path)
    ∷ bytes "off"
    ∷ []

-- `run` gives the output of a command, `none` on a failure.
pub record Runner (S : Type 0) : Type 0 where
  pub run : Command → S → Option Bytes × S

-- `users` holds the login of each user number; a number that is not positive is 0 here.
pub record Status : Type 0 where
  pub backend_state : Bytes
  pub dns_name : Bytes
  pub host_name : Bytes
  pub user_id : ℕ
  pub tags : List Bytes
  pub users : List (ℕ × Bytes)

-- The handlers of each web host, a path with its proxy, in the order in which Go's map is walked.
abbrev pub ServeConfig : Type 0
ServeConfig = List (List (Bytes × Bytes))

pub record Decoders : Type 0 where
  pub status_of : Bytes → Option Status
  pub serve_of : Bytes → Option ServeConfig

unfoldable pub login_of : ℕ → List (ℕ × Bytes) → Bytes
login_of id [] = []
login_of id ((i, login) ∷ us) = if i == id then login else login_of id us

unfoldable pub owner_login : Status → Result TailscaleError Bytes
owner_login s =
    let login = login_of s.user_id s.users in
    if not (same s.backend_state (bytes "Running"))
      || s.user_id == 0
      || not (is_empty s.tags)
      || is_empty login
      || not (same (trim_space login) login)
      || contains_any login unsafe_characters
    then err unknown_owner
    else ok login

unfoldable pub tidy_name : Bytes → Bytes
tidy_name name = trim_suffix (trim_space name) (bytes ".")

unfoldable pub checked_status : Option Status → Result TailscaleError Status
checked_status none = err bad_output
checked_status (some s) =
    let t : Status = record s { dns_name = tidy_name s.dns_name } in
    if not (same t.backend_state (bytes "Running"))
      || not (has_suffix (to_lower t.dns_name) (bytes ".ts.net"))
    then err not_running
    else ok t

unfoldable pub handler_of : List (Bytes × Bytes) → Option Bytes
handler_of [] = none
handler_of ((path, proxy) ∷ hs) = if same path serve_path then some proxy else handler_of hs

-- The target of the first host that has a handler for the path; empty if none has.
unfoldable pub target_of : ServeConfig → Bytes
unfolding handler_of
target_of [] = []
target_of (web ∷ webs) =
    let rest = target_of webs in
    elim (handler_of web) [ none ↦ rest | some proxy ↦ trim_suffix proxy (bytes "/") ]

unfoldable pub base_url : Status → Bytes
base_url s = bytes "https://" ++ s.dns_name ++ serve_path ++ bytes "/v1"

-- The answer of the public health address: the HTTP status, and `status` and `service` of its body
-- if that could be read.
pub record Health : Type 0 where
  pub code : ℕ
  pub body : Option (Bytes × Bytes)

unfoldable pub verify_health : Option Health → Result TailscaleError (Unit {0})
verify_health none = err unhealthy
verify_health (some h) = if not (h.code == 200) then err unhealthy else elim h.body [
  | none ↦ err unhealthy
  | some (status, service) ↦
      if not (same status (bytes "ok")) || not (same service (bytes "tailblink-agent"))
      then err unhealthy
      else ok tt
]

module _ (d : Decoders) {S : Type 0} (r : Runner S) where
  reply_status : Option Bytes × S → Result TailscaleError Status × S
  unfolding checked_status
  reply_status (none, s) = (err command_failed, s)
  reply_status (some out, s) = (checked_status (d.status_of out), s)

  unfoldable pub status : S → Result TailscaleError Status × S
  unfolding reply_status
  status s = reply_status (r.run get_status s)

  reply_serve : Option Bytes × S → Result TailscaleError Bytes × S
  reply_serve (none, s) = (err command_failed, s)
  reply_serve (some out, s) = elim (d.serve_of out) [
    | none ↦ (err bad_output, s)
    | some c ↦ (ok (target_of c), s)
  ]

  unfoldable pub serve_target : S → Result TailscaleError Bytes × S
  unfolding reply_serve
  serve_target s = reply_serve (r.run get_serve s)

  is_configured : Result TailscaleError Bytes × S → Result TailscaleError Bool × S
  is_configured (err e, s) = (err e, s)
  is_configured (ok target, s) =
      if is_empty target
      then (ok false, s)
      else if not (same target agent_target)
      then (err (serve_conflict target), s)
      else (ok true, s)

  unfoldable pub serve_configured : S → Result TailscaleError Bool × S
  unfolding is_configured
  serve_configured s = is_configured (serve_target s)

  done : Option Bytes × S → Result TailscaleError Bool × S
  done (none, s) = (err command_failed, s)
  done (some out, s) = (ok true, s)

  ensure : Result TailscaleError Bytes × S → Result TailscaleError Bool × S
  unfolding done
  ensure (err e, s) = (err e, s)
  ensure (ok target, s) =
      if same target agent_target
      then (ok false, s)
      else if not (is_empty target)
      then (err (serve_conflict target), s)
      else done (r.run set_serve s)

  unfoldable pub ensure_serve : S → Result TailscaleError Bool × S
  unfolding ensure
  ensure_serve s = ensure (serve_target s)

  remove : Result TailscaleError Bytes × S → Result TailscaleError Bool × S
  unfolding done
  remove (err e, s) = (err e, s)
  remove (ok target, s) =
      if is_empty target
      then (ok false, s)
      else if not (same target agent_target)
      then (err (serve_conflict target), s)
      else done (r.run unset_serve s)

  unfoldable pub remove_serve : S → Result TailscaleError Bool × S
  unfolding remove
  remove_serve s = remove (serve_target s)
