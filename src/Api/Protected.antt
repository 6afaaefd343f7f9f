-- ===== src/Api/Protected.antt =====
-- What everybody else gets, and what the log tells of each request.
use tailclip.Base.{
  ℕ, ◌≡◌, refl, Bool, true, false, not, Option, [], ◌∷◌, ◌++◌, arith, Result, ok, err,
  if◌then◌else◌, String,
}
use tailclip.Http.{Request, Parsers}
use tailclip.Config.Settings.{Config}
use tailclip.Api.{Refusal, Reply, OwnerIdentity, State, Entry, error_reply, write_error}
use tailclip.Api.RateLimit.{allow}
use tailclip.Api.Identity.{authorize}
use tailclip.Api.Refusals.{rate_limited}
use tailclip.Api.Handlers.{Answer, protected, refused, judged, finish}

-- What the log tells of an answer: the status of the response, and the code of its error.
abbrev pub code_of : Reply → String
code_of (error_reply code message) = code
code_of _ = ""

module _ {S : Type 0} (p : Parsers) (cfg : Config) (owner : Option OwnerIdentity)
    (direction : String) where
  -- A sender who does not get past the check never reaches the handler: the clipboard stays as it
  -- is, and the response is the refusal, or the limiter's.
  pub protected-refused :
      (next : Request → S → Answer × S) (now : ℕ) (r : Request) (st : State S) (f : Refusal)
      → authorize p cfg owner r ≡ err f
      → let (response, st') = protected p cfg owner direction next now r st in
        (st'.desktop ≡ st.desktop)
        × (response
            ≡ (if (allow now st.limiter).0 then write_error f else write_error rate_limited))
  unfolding protected
  protected-refused next now r st f e = ground arith

  -- A sender who gets past the check, and whom the limiter lets through, reaches the handler.
  pub protected-allowed :
      (next : Request → S → Answer × S) (now : ℕ) (r : Request) (st : State S)
      → (allow now st.limiter).0 ≡ true
      → authorize p cfg owner r ≡ ok tt
      → protected p cfg owner direction next now r st
        ≡ finish direction st (allow now st.limiter).1 (next r st.desktop)
  unfolding protected judged
  protected-allowed next now r st e f = rw (e, f, protected) refl

  -- The same for a request that the limiter stops, whoever sent it.
  protected-limited :
      (next : Request → S → Answer × S) (now : ℕ) (r : Request) (st : State S)
      → (allow now st.limiter).0 ≡ false
      → let (response, st') = protected p cfg owner direction next now r st in
        (st'.desktop ≡ st.desktop) × (response ≡ write_error rate_limited)
  unfolding protected
  protected-limited next now r st e = ground arith

  reached-code :
      (next : Request → S → Answer × S) (r : Request) (s : S) (allowed : Bool)
      (verdict : Result Refusal (Unit {0}))
      → (next r s).0.1.error_code ≡ code_of (next r s).0.0.reply
      → let a : Answer × S =
          if not allowed then (refused (rate_limited, 0), s) else judged next r s verdict in
        a.0.1.error_code ≡ code_of a.0.0.reply
  unfolding judged refused
  reached-code next r s false verdict e = refl
  reached-code next r s true (err f) e = refl
  reached-code next r s true (ok _) e = e

  -- Each request adds one line to the log, with the status of its response and the code of its error,
  -- where the handler notes the code that it answers with.
  pub protected-log :
      (next : Request → S → Answer × S) (now : ℕ) (r : Request) (st : State S)
      → ((next r st.desktop).0.1.error_code ≡ code_of (next r st.desktop).0.0.reply)
      → let (response, st') = protected p cfg owner direction next now r st in
        (line : Entry) × (st'.log ≡ st.log ++ line ∷ [])
        × (line.status ≡ response.status)
        × (line.error_code ≡ code_of response.reply)
        × (line.direction ≡ direction)
  unfolding protected write_error
  protected-log next now r st e = (
    _,
    refl,
    refl,
    reached-code next r st.desktop (allow now st.limiter).0 (authorize p cfg owner r) e,
    refl,
  )
