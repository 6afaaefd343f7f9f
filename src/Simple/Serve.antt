-- ===== src/Simple/Serve.antt =====
-- internal/simple/service.go: `ServeHTTP`, `serveBuffered`, `authorizedLocked` and `pairLocked`, and
-- the pages of internal/simple/page.go by what they show. The fixed headers of the responses are
-- left out. `now` is the one time at which a request is served.
use tailclip.Base.{
  ℕ, suc, ◌-◌, ◌==◌, Bool, true, not, ◌&&◌, ◌||◌, Option, none, some, [], ◌++◌, Bytes, bytes,
  length, take, same, is_empty, is_none, ltb, leb, has_prefix, if◌then◌else◌, ok, err, String,
}
use tailclip.Http.{Request, values, get_header, read_body, Parsers, bearer}
use tailclip.Clipboard.{Backend}
use tailclip.Config.Settings.{Config}
use tailclip.Api
use tailclip.Api.{max_body_bytes}
use tailclip.Api.RateLimit.{minute}
use tailclip.Api.Identity.{client_header}
use tailclip.Api.Handlers.{serve}
use tailclip.Simple.{Service, draw, set_credential, base_url}

-- What a request for pairing holds: the number as it is written, and the ticket. `decode_pair` is
-- `encoding/json` on the first value of the body, with unknown fields disallowed.
pub record PairInput : Type 0 where
  pub version : Bytes
  pub ticket : Bytes

pub record PairParsers : Type 0 where
  pub common : Parsers
  pub open common use *
  pub decode_pair : Bytes → Option (PairInput × Bytes)

pub data Reply : Type 0 where
  health_reply : (session : Bytes) → Reply
  asset_reply : (path : Bytes) → Reply
  page_reply : (device_name base_url ticket : Bytes) (expires : ℕ) → Reply
  paired_reply : (base_url token device_name : Bytes) → Reply
  api_reply : Api.Reply → Reply
  error_reply : (message : String) → Reply
  text_reply : (message : String) → Reply

pub record Response : Type 0 where
  pub status : ℕ
  pub reply : Reply

abbrev pub simple_error : ℕ → String → Response
simple_error code message = record { status = code; reply = error_reply message }

abbrev pub scan_again : Response
scan_again = simple_error 401 "配對已失效，請重新掃描電腦 QR"

unfoldable pub authorized : Service → Request → Bool
authorized s r =
    s.paired
    && not (is_empty s.credential)
    && length (values (bytes "Authorization") r.header) == 1
    && length (get_header (bytes "Authorization") r.header) == length (bearer s.credential)
    && same (get_header (bytes "Authorization") r.header) (bearer s.credential)

abbrev pub pair_path : Bytes
pair_path = bytes "/v1/pair"

abbrev pub text_path : Bytes
text_path = bytes "/v1/clipboard/text"

abbrev pub send_asset : Bytes
send_asset = bytes "/shortcuts/TailBlink-Simple-Send.shortcut"

abbrev pub pull_asset : Bytes
pull_asset = bytes "/shortcuts/TailBlink-Simple-Pull.shortcut"

-- `pageLocked`.
unfoldable pub page : ℕ → Service → Request → Response
page now s r =
    if has_prefix r.path (bytes "/shortcuts/")
    then if same r.path send_asset || same r.path pull_asset
      then record { status = 200; reply = asset_reply r.path }
      else record { status = 404; reply = text_reply "404 page not found" }
    else if is_empty s.ticket
        || not (same r.path (bytes "/setup/" ++ s.ticket))
        || not (ltb now s.expires)
    then record { status = 404; reply = text_reply "配對頁已失效，請在電腦產生新 QR。" }
    else record {
      status = 200;
      reply = page_reply s.device_name (base_url s.host) s.ticket s.expires;
    }

-- The count of attempts starts again a minute after the window began.
unfoldable pub count_attempt : ℕ → Service → Service
count_attempt now s =
    if leb minute (now - s.attempt_window)
    then record s { attempt_window = now; attempts = 1 }
    else record s { attempts = suc s.attempts }

unfoldable pub redeemable : ℕ → Bytes → Service → Bool
redeemable now ticket s =
    not (is_empty s.ticket)
    && ltb now s.expires
    && length ticket == length s.ticket
    && same ticket s.ticket

unfoldable pub redeem : Bytes → Service → Response × Service
redeem token s = (
  record { status = 200; reply = paired_reply (base_url s.host) token s.device_name },
  record (set_credential token s) { paired = true; ticket = []; expires = 0 },
)

abbrev pub pair_limit : ℕ
pair_limit = 4096

-- What `MaxBytesReader` lets through.
unfoldable pub within_limit : Bytes → Bytes
within_limit body = take pair_limit body

module _ (p : PairParsers) where
  try_ticket : ℕ → Option Bytes → Bytes → Service → Response × Service
  unfolding redeem
  try_ticket now raw ticket s =
      if not (redeemable now ticket s)
      then (simple_error 401 "配對已失效，請在電腦重新顯示 QR", s)
      else elim (draw raw) [ err e ↦ (simple_error 500 "無法建立配對", s) | ok token ↦ redeem token s ]

  -- What the limit cuts off is no end of the body for the second `Decode`.
  read_pair : ℕ → Option Bytes → Request → Service → Response × Service
  unfolding try_ticket
  read_pair now raw r s = elim (p.decode_pair (within_limit r.body)) [
    | none ↦ (simple_error 400 "配對資料無效", s)
    | some (input, rest) ↦
        if ltb pair_limit (length r.body)
          || not (p.is_eof rest)
          || not (same input.version (bytes "1"))
        then (simple_error 400 "配對版本不相容", s)
        else try_ticket now raw input.ticket s
  ]

  -- `pairLocked`.
  unfoldable pub pair : ℕ → Option Bytes → Request → Service → Response × Service
  unfolding read_pair
  pair now raw r s =
      if not (same r.method (bytes "POST"))
      then (simple_error 405 "此操作只接受 POST", s)
      else let s' = count_attempt now s in
        if ltb 30 s'.attempts
        then (simple_error 429 "配對嘗試太頻繁，請稍後再試", s')
        else read_pair now raw r s'

  -- The configuration that the API behind the entry works with.
  abbrev pub api_config : Service → Config
  api_config s = record {
    version = 1;
    device_name = s.device_name;
    tailscale_device = [];
    pairing_token = s.credential;
    connection_mode = [];
  }

  module _ {S : Type 0} (b : Backend S) where
    abbrev api_options : Api.Options S
    api_options = record { clipboard = b; owner = none; rate_limit = 0; rate_window = 0 }

    -- The API's own log is thrown away.
    unfoldable pub to_api : ℕ → Request → Service → S → Response × Service × S
    to_api now r s d =
        let (response, st) =
          serve p.common (api_config s) api_options now r
            (record { limiter = s.limiter; desktop = d; log = [] }) in
        (
          record { status = response.status; reply = api_reply response.reply },
          record s { limiter = st.limiter },
          st.desktop,
        )

    unfoldable pub serve_buffered :
        ℕ → Option Bytes → Request → Service → S → Response × Service × S
    serve_buffered now raw r s d =
        if is_empty s.host || not (same r.host s.host)
        then (simple_error 403 "臨時網址不符", s, d)
        else if same r.path (bytes "/v1/health") && same r.method (bytes "GET")
        then (record { status = 200; reply = health_reply s.session }, s, d)
        else if not s.active || not s.ready
        then (simple_error 503 "臨時隧道尚未啟用或已結束", s, d)
        else if same r.method (bytes "GET")
            && (has_prefix r.path (bytes "/setup/") || has_prefix r.path (bytes "/shortcuts/"))
        then (page now s r, s, d)
        else if not (is_empty (values (bytes "Origin") r.header))
            || not (is_empty (values (bytes "Sec-Fetch-Site") r.header))
            || not (is_empty (values client_header r.header))
        then (simple_error 403 "請使用簡易捷徑操作", s, d)
        else if same r.path pair_path
        then (let (response, s') = pair now raw r s in (response, s', d))
        else if not (same r.path (bytes "/v1/status")) && not (same r.path text_path)
        then (simple_error 404 "不支援此操作", s, d)
        else if not (authorized s r)
        then (scan_again, s, d)
        else to_api now r s d

    is_upload : Request → Bool
    is_upload r = same r.method (bytes "POST") && (same r.path pair_path || same r.path text_path)

    -- A body is only read for a sender who may go on; the state may have changed when it has been
    -- read, so `serve_buffered` asks once more. The first state is the one before the reading.
    unfoldable pub admit : Service → Request → Option Response
    unfolding is_upload
    admit s r =
        if not (is_upload r)
        then none
        else if not
            (s.active && s.ready && same r.host s.host && (same r.path pair_path || authorized s r))
        then some scan_again
        else if is_none (read_body (if same r.path text_path then max_body_bytes else pair_limit) r)
        then some (simple_error 413 "請求過大或尚未完整傳送")
        else none

    unfoldable pub serve_http :
        Service → ℕ → Option Bytes → Request → Service → S → Response × Service × S
    serve_http before now raw r s d = elim (admit before r) [
      | some response ↦ (response, s, d)
      | none ↦ serve_buffered now raw r s d
    ]
