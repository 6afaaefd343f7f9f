-- ===== src/Tailscale/Ownership.antt =====
-- The client changes only what is TailBlink's own: which commands it runs, and when.
use tailclip.Base.{
  ◌≡◌, ◌≢◌, refl, ◌⊎◌, inl, inr, Bool, true, false, Option, none, some, List, [], ◌∷◌, arith, Bytes,
  bytes, same, same_iff, is_empty_iff, Result, ok, err, has_suffix, to_lower, trim_suffix,
  strip_prefix, Option-cases, Bool-cases,
}
use tailclip.Pairing.{Url, check_url}
use tailclip.Api.Identity.{is_login}
use tailclip.Tailscale.{
  Runner, Command, get_status, get_serve, set_serve, unset_serve, Decoders, Status, ServeConfig,
  TailscaleError, serve_conflict, command_failed, agent_target, serve_target, serve_configured,
  ensure_serve, remove_serve, target_of, status, checked_status, owner_login, login_of, base_url,
}

-- A runner whose answers are given, and that keeps the commands that it ran, the last one first.
abbrev pub recording : (Command → Option Bytes) → Runner (List Command)
recording answers = record { run = λ c log. (answers c, c ∷ log) }

module _ (d : Decoders) (answers : Command → Option Bytes) where
  abbrev found : Result TailscaleError Bytes
  found = (serve_target d (recording answers) []).0

  -- Adding the path: it is set exactly if the question found it free. A path that is TailBlink's own
  -- already, that another service has, or that cannot be read gets no command but the question.
  pub ensure_serve-commands :
      ((found ≡ ok []) × ((ensure_serve d (recording answers) []).1 ≡ set_serve ∷ get_serve ∷ []))
      ⊎ ((found ≢ ok []) × ((ensure_serve d (recording answers) []).1 ≡ get_serve ∷ []))
  unfolding ensure_serve serve_target
  ensure_serve-commands = elim (Option-cases (answers get_serve)) [
    | inl e ↦ inr ((λ h. ground arith), ground arith)
    | inr (out, e) ↦ elim (Option-cases (d.serve_of out)) [
      | inl e' ↦ inr ((λ h. ground arith), ground arith)
      | inr (c, e') ↦ free out c e e' (target_of c) refl
    ]
  ]
    where
      free :
          (out : Bytes) (c : ServeConfig)
          → answers get_serve ≡ some out
          → d.serve_of out ≡ some c
          → (t : Bytes) → target_of c ≡ t
          → ((found ≡ ok [])
              × ((ensure_serve d (recording answers) []).1 ≡ set_serve ∷ get_serve ∷ []))
            ⊎ ((found ≢ ok []) × ((ensure_serve d (recording answers) []).1 ≡ get_serve ∷ []))
      free out c e e' [] q = inl (ground arith, ground (arith, same_iff [] agent_target))
      free out c e e' (x ∷ t) q =
          inr ((λ h. ground arith), ground (arith, same_iff (x ∷ t) agent_target))

  -- Removing the path: it is unset exactly if the question found TailBlink's own target there.
  pub remove_serve-commands :
      ((found ≡ ok agent_target)
        × ((remove_serve d (recording answers) []).1 ≡ unset_serve ∷ get_serve ∷ []))
      ⊎ ((found ≢ ok agent_target) × ((remove_serve d (recording answers) []).1 ≡ get_serve ∷ []))
  unfolding remove_serve serve_target
  remove_serve-commands = elim (Option-cases (answers get_serve)) [
    | inl e ↦ inr ((λ h. ground arith), ground arith)
    | inr (out, e) ↦ elim (Option-cases (d.serve_of out)) [
      | inl e' ↦ inr ((λ h. ground arith), ground arith)
      | inr (c, e') ↦ elim (Bool-cases (same (target_of c) agent_target)) [
        | inl t ↦ inl (
          ground (arith, same_iff (target_of c) agent_target),
          ground (arith, same_iff (target_of c) agent_target),
        )
        | inr t ↦ inr ((λ h. ground (arith, same_iff (target_of c) agent_target)), ground arith)
      ]
    ]
  ]

trim_empty : trim_suffix [] (bytes "/") ≡ []
unfolding trim_suffix strip_prefix
trim_empty = refl

-- A target that is another service's is named in the error, by the three calls alike.
pub conflict :
    (d : Decoders) {S : Type 0} (r : Runner S) (s : S) (t : Bytes)
    → (serve_target d r s).0 ≡ ok t
    → t ≢ []
    → t ≢ agent_target
    → ((ensure_serve d r s).0 ≡ err (serve_conflict t))
      × ((remove_serve d r s).0 ≡ err (serve_conflict t))
      × ((serve_configured d r s).0 ≡ err (serve_conflict t))
unfolding ensure_serve remove_serve serve_configured
conflict d r s t e p q = ground (arith, same_iff t agent_target, is_empty_iff t)

checked_status_ok :
    (o : Option Status) (t : Status)
    → checked_status o ≡ ok t
    → (t.backend_state ≡ bytes "Running")
      × (has_suffix (to_lower t.dns_name) (bytes ".ts.net") ≡ true)
unfolding checked_status
checked_status_ok none t h = cc
checked_status_ok (some s) t h = ground (arith, same_iff s.backend_state (bytes "Running"))

-- A status is handed out only for a node that runs and has a name in ts.net.
status_ok :
    (d : Decoders) {S : Type 0} (r : Runner S) (s : S) (t : Status)
    → (status d r s).0 ≡ ok t
    → (t.backend_state ≡ bytes "Running")
      × (has_suffix (to_lower t.dns_name) (bytes ".ts.net") ≡ true)
unfolding status
status_ok d r s t h = elim (Option-cases (r.run get_status s).0) [
  | inl e ↦ ground arith
  | inr (out, e) ↦ checked_status_ok (d.status_of out) t (ground arith)
]

-- A login is handed out only for a node that runs, has a user and carries no tag.
pub owner_login_ok :
    (s : Status) (login : Bytes)
    → owner_login s ≡ ok login
    → (login ≡ login_of s.user_id s.users)
      × (s.backend_state ≡ bytes "Running")
      × (s.user_id ≢ 0)
      × (s.tags ≡ [])
      × (is_login login ≡ true)
unfolding owner_login is_login
owner_login_ok s login h =
    ground (arith, same_iff s.backend_state (bytes "Running"), is_empty_iff s.tags)

-- The address that the phone is given passes the check of the pairing data, where `url.Parse` takes
-- an address of this form apart as documented.
pub base_url-check_url :
    (d : Decoders) {S : Type 0} (r : Runner S) (s : S) (t : Status) (parse_url : Bytes → Option Url)
    → (status d r s).0 ≡ ok t
    → parse_url (base_url t)
      ≡ some (record {
        scheme = bytes "https";
        has_user = false;
        hostname = t.dns_name;
        path = bytes "/tailblink/v1";
        raw_query = [];
        fragment = [];
      })
    → check_url (parse_url (base_url t)) ≡ ok tt
unfolding check_url same
base_url-check_url d r s t parse_url h e = rw (e, check_url) (rw ((status_ok d r s t h).1))

-- What a command that changes the path reports.
abbrev reported : Option Bytes → Result TailscaleError Bool
reported none = err command_failed
reported (some out) = ok true

module _ (d : Decoders) (answers : Command → Option Bytes) where
  abbrev asked : Result TailscaleError Bytes × List Command
  asked = serve_target d (recording answers) []

  abbrev checked_run : Result TailscaleError Bool × List Command
  checked_run = serve_configured d (recording answers) []

  abbrev added_run : Result TailscaleError Bool × List Command
  added_run = ensure_serve d (recording answers) []

  abbrev removed_run : Result TailscaleError Bool × List Command
  removed_run = remove_serve d (recording answers) []

  abbrev only_asked : List Command
  only_asked = get_serve ∷ []

  -- How the three calls act on one answer of the command: nothing at the path, TailBlink's own
  -- target, another one, or none that can be read.
  pub data Agreement : Type 0 where
    free :
        asked.0 ≡ ok []
        → checked_run ≡ (ok false, only_asked)
        → added_run ≡ (reported (answers set_serve), set_serve ∷ only_asked)
        → removed_run ≡ (ok false, only_asked)
        → Agreement
    own :
        asked.0 ≡ ok agent_target
        → checked_run ≡ (ok true, only_asked)
        → added_run ≡ (ok false, only_asked)
        → removed_run ≡ (reported (answers unset_serve), unset_serve ∷ only_asked)
        → Agreement
    foreign :
        (t : Bytes)
        → asked.0 ≡ ok t
        → t ≢ []
        → t ≢ agent_target
        → checked_run ≡ (err (serve_conflict t), only_asked)
        → added_run ≡ (err (serve_conflict t), only_asked)
        → removed_run ≡ (err (serve_conflict t), only_asked)
        → Agreement
    unread :
        (e : TailscaleError)
        → asked.0 ≡ err e
        → checked_run ≡ (err e, only_asked)
        → added_run ≡ (err e, only_asked)
        → removed_run ≡ (err e, only_asked)
        → Agreement
