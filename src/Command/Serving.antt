-- ===== src/Command/Serving.antt =====
-- cmd/tailblink/main.go and platform_linux.go: `configureServe`, `removeServe`, `lazyTailnet` and
-- `prepareTailnet`, over the client of Tailscale, whose command is looked for at each call.
use tailclip.Base.{Bool, Option, Bytes, if◌then◌else◌, Result, ok, err}
use tailclip.Tailscale.{
  TailscaleError, not_installed, Runner, Decoders, Status, Health, status, ensure_serve,
  remove_serve, serve_configured, verify_health,
}

-- `tell` is the text that asks for the user's consent, with the name that it is about.
pub data NotPrepared : Type 0 where
  failed : TailscaleError → NotPrepared
  needs_consent : (name : Bytes) → NotPrepared

-- `found`: the command is on this computer.
module _ (found : Bool) (d : Decoders) {S : Type 0} (r : Runner S) where
  unfoldable pub lazy_status : S → Result TailscaleError Status × S
  lazy_status s = if found then status d r s else (err not_installed, s)

  dropped : Result TailscaleError Bool × S → Result TailscaleError (Unit {0}) × S
  dropped (err e, s) = (err e, s)
  dropped (ok _, s) = (ok tt, s)

  unfoldable pub remove_entry : S → Result TailscaleError (Unit {0}) × S
  unfolding dropped
  remove_entry s = if found then dropped (remove_serve d r s) else (err not_installed, s)

  asked : Result TailscaleError Status × S → Result NotPrepared (Unit {0}) × S
  asked (err e, s) = (err (failed e), s)
  asked (ok st, s) = (err (needs_consent st.dns_name), s)

  prepared : Result TailscaleError Bool × S → Result NotPrepared (Unit {0}) × S
  unfolding asked
  prepared (err e, s) = (err (failed e), s)
  prepared (ok is_set, s) = let next = asked (status d r s) in if is_set then (ok tt, s) else next

  -- On Linux; only what was configured before is accepted.
  unfoldable pub prepare_tailnet : S → Result NotPrepared (Unit {0}) × S
  unfolding prepared
  prepare_tailnet s =
      if found then prepared (serve_configured d r s) else (err (failed not_installed), s)

-- `health` is what the public address of a node answers.
module _ (found : Bool) (d : Decoders) {S : Type 0} (r : Runner S)
    (health : Status → S → Option Health) where
  verified : Status → Result TailscaleError Bool × S → Result TailscaleError (Unit {0}) × S
  verified st (err e, s) = (err e, s)
  verified st (ok _, s) = (verify_health (health st s), s)

  configured : Result TailscaleError Status × S → Result TailscaleError (Unit {0}) × S
  unfolding verified
  configured (err e, s) = (err e, s)
  configured (ok st, s) = verified st (ensure_serve d r s)

  unfoldable pub configure_serve : S → Result TailscaleError (Unit {0}) × S
  unfolding configured
  configure_serve s = if found then configured (status d r s) else (err not_installed, s)
