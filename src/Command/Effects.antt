-- ===== src/Command/Effects.antt =====
-- What the command line does with the agent's answers and with the command of Tailscale.
use tailclip.Base.{
  ◌≡◌, inl, inr, Bool, true, false, ◌&&◌, Option, List, [], ◌∷◌, Bytes, arith, has_prefix, Result,
  ok, Result-cases,
}
use tailclip.Config.Settings.{Config}
use tailclip.Tailscale.{
  Command, get_status, get_serve, Runner, Decoders, Status, Health, status, ensure_serve,
  serve_configured, serve_target, verify_health,
}
use tailclip.Tailscale.Ownership.{recording}
use tailclip.Command.{CommandError, Done, Request, Opened, address_of, open_settings, local_prefix}
use tailclip.Command.Serving.{configure_serve, prepare_tailnet}

abbrev pub AllLocal : List Bytes → Type 0
AllLocal [] = Unit
AllLocal (u ∷ us) = (has_prefix u local_prefix ≡ true) × AllLocal us

-- Each address that the browser is started with begins with `http://127.0.0.1:`, whatever the agent
-- answers.
pub open_settings-AllLocal :
    (ready : Done) (settings : Result CommandError Config) (post : Request → Option Opened)
    (open_url : Bytes → Bool)
    → AllLocal (open_settings ready settings post open_url).1
unfolding open_settings address_of
open_settings-AllLocal ready settings post open_url = ground arith

unfoldable pub is_question : Command → Bool
is_question get_status = true
is_question get_serve = true
is_question _ = false

unfoldable pub all_questions : List Command → Bool
all_questions [] = true
all_questions (c ∷ cs) = is_question c && all_questions cs

-- Choosing Tailscale on Linux changes nothing of its settings: it asks, and accepts only the path
-- that is TailBlink's own already.
pub prepare_tailnet-all_questions :
    (found : Bool) (d : Decoders) (answers : Command → Option Bytes)
    → all_questions (prepare_tailnet found d (recording answers) []).1 ≡ true
unfolding prepare_tailnet all_questions is_question serve_configured serve_target status
prepare_tailnet-all_questions found d answers = ground arith

-- A configuration that reports success found a running node, left the path as TailBlink's own, and
-- reached the agent through it.
pub configure_serve_ok :
    (found : Bool) (d : Decoders) {S : Type 0} (r : Runner S) (health : Status → S → Option Health)
    (s : S)
    → (configure_serve found d r health s).0 ≡ ok tt
    → (st : Status) × ((status d r s).0 ≡ ok st)
      × ((set : Bool) × ((ensure_serve d r (status d r s).1).0 ≡ ok set))
      × (verify_health (health st (ensure_serve d r (status d r s).1).1) ≡ ok tt)
unfolding configure_serve
configure_serve_ok true d r health s h = elim (Result-cases (status d r s).0) [
  | inl (st, e) ↦ elim (Result-cases (ensure_serve d r (status d r s).1).0) [
    | inl (b, f) ↦ (st, e, (b, f), ground arith)
    | inr (x, f) ↦ ground arith
  ]
  | inr (x, e) ↦ ground arith
]
configure_serve_ok false d r health s h = cc
