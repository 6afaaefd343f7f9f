-- ===== src/Api/Handlers.antt =====
-- internal/api/server.go: the handlers, the check in front of them and the routes. The configuration
-- is the one that a request finds; `now` is the time at the rate limiter.
use tailclip.Base.{
  ℕ, Bool, true, false, not, ◌||◌, Option, none, some, [], ◌∷◌, ◌++◌, Bytes, bytes, length, same,
  is_empty, is_none, ltb, contains_byte, valid_utf8, if◌then◌else◌, Result, ok, err, ◌>>=◌, String,
}
use tailclip.Http.{Request, get_header, read_body, Parsers}
use tailclip.Clipboard.{Backend, ClipError, Done, is_no_text}
use tailclip.Config.Settings.{Config}
use tailclip.Api.{
  max_text_bytes, max_body_bytes, health_reply, status_reply, empty_reply, text_reply, stored_reply,
  Response, Refusal, write_json, write_error, security_headers, not_found, Metrics, OwnerIdentity,
  Options, State,
}
use tailclip.Api.Refusals.{
  rate_limited, get_only, get_or_post_only, unreadable_text, desktop_text_too_large, not_json,
  text_too_large, not_utf8, not_a_text, empty_or_nul, clipboard_refusal,
}
use tailclip.Api.RateLimit.{Limiter, allow}
use tailclip.Api.Identity.{authorize}

abbrev pub quiet : Metrics
quiet = record { bytes = 0; error_code = "" }

-- A refusal, and how many bytes it reports to the log.
abbrev pub Reject : Type 0
Reject = Refusal × ℕ

abbrev pub Answer : Type 0
Answer = Response × Metrics

unfoldable pub refused : Reject → Answer
unfolding write_error
refused (f, n) = (write_error f, record { bytes = n; error_code = f.code })

abbrev require : Bool → Refusal → ℕ → Result Reject (Unit {0})
require true f n = ok tt
require false f n = err (f, n)

abbrev or_reject {ℓ} : {A : Type ℓ} → Option A → Refusal → Result Reject A
or_reject none f = err (f, 0)
or_reject (some a) f = ok a

abbrev is_json : Option Bytes → Bool
is_json none = false
is_json (some t) = same t (bytes "application/json")

only_text : Parsers → Bytes → Option Bytes
only_text p body = elim (p.decode_text body) [
  | none ↦ none
  | some (text, rest) ↦ if p.is_eof rest then text else none
]

-- The text that a POST asks to be stored, or why it is refused.
unfoldable pub checked_text : Parsers → Request → Result Reject Bytes
unfolding only_text
checked_text p r = do
  _ ← require (is_json (p.media_type (get_header (bytes "Content-Type") r.header))) not_json 0
  body ← or_reject (read_body max_body_bytes r) text_too_large
  _ ← require (valid_utf8 body) not_utf8 0
  text ← or_reject (only_text p body) not_a_text
  _ ← require (not (is_empty text || contains_byte 0 text)) empty_or_nul (length text)
  _ ← require (not (ltb max_text_bytes (length text))) text_too_large (length text)
  ok text

unfoldable pub health : Option OwnerIdentity → Request → Response
health owner r =
    if not (same r.method (bytes "GET"))
    then write_error get_only
    else write_json 200 (health_reply (not (is_none owner)))

empty_answer : Bytes → Answer
empty_answer name = (write_json 200 (empty_reply name), quiet)

-- What a GET tells of the text that was read.
unfoldable pub text_answer : Config → Bytes → Answer
unfolding empty_answer refused
text_answer cfg text =
    if is_empty text
    then empty_answer cfg.device_name
    else if not (valid_utf8 text) || contains_byte 0 text
    then refused (unreadable_text, 0)
    else if ltb max_text_bytes (length text)
    then refused (desktop_text_too_large, length text)
    else (
      write_json 200 (text_reply cfg.device_name text),
      record { bytes = length text; error_code = "" },
    )

unfoldable pub read_answer : Config → Result ClipError Bytes → Answer
unfolding empty_answer refused
read_answer cfg (ok text) = text_answer cfg text
read_answer cfg (err e) =
    if is_no_text e then empty_answer cfg.device_name else refused (clipboard_refusal e, 0)

unfoldable pub stored_answer : Config → Bytes → Done → Answer
unfolding refused
stored_answer cfg text (ok _) = (
  write_json 200 (stored_reply cfg.device_name (length text)),
  record { bytes = length text; error_code = "" },
)
stored_answer cfg text (err e) = refused (clipboard_refusal e, 0)

module _ {S : Type 0} where
  unfoldable pub status : Config → Backend S → Request → S → Answer × S
  unfolding refused
  status cfg b r s =
      if not (same r.method (bytes "GET"))
      then (refused (get_only, 0), s)
      else let (available, s') = b.available r.ctx s in
        (
          (
            write_json 200 (
                status_reply cfg.device_name cfg.tailscale_device
                  (elim available [ ok _ ↦ true | err _ ↦ false ])),
            quiet,
          ),
          s',
        )

  unfoldable pub read_clipboard : Config → Backend S → Request → S → Answer × S
  read_clipboard cfg b r s = let (text, s') = b.read_text r.ctx s in (read_answer cfg text, s')

  unfoldable pub store : Config → Backend S → Request → S → Result Reject Bytes → Answer × S
  store cfg b r s (err f) = (refused f, s)
  store cfg b r s (ok text) =
      let (done, s') = b.write_text r.ctx text s in (stored_answer cfg text done, s')

  unfoldable pub write_clipboard : Parsers → Config → Backend S → Request → S → Answer × S
  unfolding store refused
  write_clipboard p cfg b r s = store cfg b r s (checked_text p r)

  unfoldable pub clipboard_text : Parsers → Config → Backend S → Request → S → Answer × S
  unfolding refused
  clipboard_text p cfg b r s =
      if same r.method (bytes "GET")
      then read_clipboard cfg b r s
      else if same r.method (bytes "POST")
      then write_clipboard p cfg b r s
      else (refused (get_or_post_only, 0), s)

  unfoldable pub finish : String → State S → Limiter → Answer × S → Response × State S
  finish direction st limiter ((response, m), s) = (
    response,
    record {
      limiter = limiter;
      desktop = s;
      log =
          st.log
          ++ record {
            direction = direction;
            bytes = m.bytes;
            status = response.status;
            error_code = m.error_code;
          }
            ∷ [];
    },
  )

  unfoldable pub judged :
      (Request → S → Answer × S) → Request → S → Result Refusal (Unit {0}) → Answer × S
  judged next r s (err f) = (refused (f, 0), s)
  judged next r s (ok _) = next r s

  -- The limiter comes first, then the check of the sender, then the handler; each outcome is logged.
  unfoldable pub protected :
      Parsers
      → Config
      → Option OwnerIdentity
      → String
      → (Request → S → Answer × S)
      → ℕ
      → Request
      → State S
      → Response × State S
  unfolding finish judged refused
  protected p cfg owner direction next now r st =
      let (allowed, limiter) = allow now st.limiter in
      finish direction st limiter (
        if not allowed
        then (refused (rate_limited, 0), st.desktop)
        else judged next r st.desktop (authorize p cfg owner r))

  secured : Response × State S → Response × State S
  secured (response, st) = (security_headers response, st)

  unfoldable pub serve : Parsers → Config → Options S → ℕ → Request → State S → Response × State S
  unfolding secured
  serve p cfg o now r st = secured (
      if same r.path (bytes "/v1/health")
      then (health o.owner r, st)
      else if same r.path (bytes "/v1/status")
      then protected p cfg o.owner "status" (status cfg o.clipboard) now r st
      else if same r.path (bytes "/v1/clipboard/text")
      then protected p cfg o.owner "clipboard" (clipboard_text p cfg o.clipboard) now r st
      else (not_found, st))
