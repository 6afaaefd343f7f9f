-- ===== src/Simple/Phone.antt =====
-- The requests of a phone to the simple entry, and what they are answered where the entry knows it.
pub mod Session
use tailclip.Base.{
  ℕ, suc, ◌+◌, ◌≤◌, ◌<◌, ◌≡◌, refl, true, false, Option, none, some, [], ◌∷◌, arith, ◌∙◌, Bytes,
  bytes, length, same, same_refl, is_empty, valid_utf8, ltb, ok, err, is_none,
}
use tailclip.Config.Base64.{encode, encode-not_empty}
use tailclip.Http.{
  Request, Parsers, Header, values, get_header, first, bearer, read_body, bearer_matches,
  bearer_matches_iff,
}
use tailclip.Clipboard.{Memory, memory, Backend, memory_read, memory_write}
use tailclip.Api.{text_reply, stored_reply, max_body_bytes, State}
use tailclip.Api.RateLimit.{Limiter, allow}
use tailclip.Api.Identity.{client_header, authorize, by_token, guard}
use tailclip.Api.Handlers.{
  checked_text, clipboard_text, serve, finish, store, stored_answer, read_clipboard, read_answer,
  text_answer,
}
use tailclip.Api.Transfer.{IsText, clipboard_text-post, clipboard_text-get}
use tailclip.Api.Protected.{protected-allowed}
use tailclip.Simple.{Service, Ticket, new_pairing, base_url, set_credential}
use tailclip.Simple.Serve.{
  PairParsers, Response, paired_reply, api_reply, pair, pair_path, text_path, count_attempt,
  redeemable, redeem, authorized, serve_http, serve_buffered, admit, to_api, api_config,
}
use tailclip.Simple.Pairing.{authorized_iff, within_limit_short}

-- A request to the entry's address; the rest of it is that of `r`.
abbrev pub sent : (method path host : Bytes) → Request → Request
sent method path host r = record r { method = method; path = path; host = host; broken = false }

-- What a browser or one of the new shortcuts sends is missing.
pub record IsPlain (h : Header) : Type 0 where
  pub no_origin : values (bytes "Origin") h ≡ []
  pub no_fetch : values (bytes "Sec-Fetch-Site") h ≡ []
  pub no_marker : values client_header h ≡ []

module _ (p : PairParsers) {S : Type 0} (b : Backend S) where
  admitted :
      (before : Service) (now : ℕ) (raw : Option Bytes) (q : Request) (s : Service) (d : S)
      → admit p b before q ≡ none
      → serve_http p b before now raw q s d ≡ serve_buffered p b now raw q s d
  unfolding serve_http
  admitted before now raw q s d e = rw (e, serve_http) refl

  admit_pair :
      (r : Request) (s : Service)
      → s.active ≡ true
      → s.ready ≡ true
      → length r.body ≤ 4096
      → admit p b s (sent (bytes "POST") pair_path s.host r) ≡ none
  unfolding admit read_body same
  admit_pair r s active ready short = ground (arith, same_refl s.host)

  buffered_pair :
      (now : ℕ) (raw : Option Bytes) (r : Request) (s : Service) (d : S)
      → s.active ≡ true
      → s.ready ≡ true
      → is_empty s.host ≡ false
      → IsPlain r.header
      → let q = sent (bytes "POST") pair_path s.host r in
        serve_buffered p b now raw q s d
        ≡ (let (response, s') = pair p now raw q s in (response, s', d))
  unfolding serve_buffered same
  buffered_pair now raw r s d active ready hosted plain =
      ground (arith, same_refl s.host, plain.no_origin, plain.no_fetch, plain.no_marker)

  pair_accepted :
      (now : ℕ) (bits host rest : Bytes) (r : Request) (s : Service)
      → now < s.expires
      → is_empty s.ticket ≡ false
      → (count_attempt now s).attempts ≤ 30
      → length r.body ≤ 4096
      → p.decode_pair r.body ≡ some (record { version = bytes "1"; ticket = s.ticket }, rest)
      → p.is_eof rest ≡ true
      → pair p now (some bits) (sent (bytes "POST") pair_path host r) s
        ≡ redeem (encode bits) (count_attempt now s)
  unfolding pair count_attempt redeemable same
  pair_accepted now bits host rest r s soon some_ticket few short e eof =
      ground (arith, same_refl s.ticket, within_limit_short r.body short)

pub allow_room :
    (now : ℕ) (l : Limiter)
    → l.count < l.limit
    → ((allow now l).0 ≡ true)
      × ((allow now l).1.limit ≡ l.limit)
      × ((allow now l).1.count ≤ suc l.count)
unfolding allow
allow_room now l h = ground arith

-- A phone whose pairing the entry knows.
pub record IsReady (s : Service) : Type 0 where
  pub active : s.active ≡ true
  pub ready : s.ready ≡ true
  pub hosted : is_empty s.host ≡ false
  pub paired : s.paired ≡ true
  pub has_credential : is_empty s.credential ≡ false

module _ (p : PairParsers) {S : Type 0} (b : Backend S) (s : Service) (good : IsReady s) where
  is_authorized :
      (method path : Bytes) (r : Request)
      → values (bytes "Authorization") r.header ≡ bearer s.credential ∷ []
      → authorized s (sent method path s.host r) ≡ true
  is_authorized method path r token =
      (authorized_iff s (sent method path s.host r)).1 (good.paired, good.has_credential, token)

  api_authorized :
      (method path : Bytes) (r : Request)
      → IsPlain r.header
      → values (bytes "Authorization") r.header ≡ bearer s.credential ∷ []
      → authorize p.common (api_config p s) none (sent method path s.host r) ≡ ok tt
  unfolding authorize by_token tailclip.Api.Identity.authorized get_header first
  api_authorized method path r plain token =
      rw (plain.no_marker, token)
        (ground (arith, (bearer_matches_iff (bearer s.credential) s.credential).1 refl))

  buffered_text :
      (method : Bytes) (now : ℕ) (raw : Option Bytes) (r : Request) (d : S)
      → IsPlain r.header
      → values (bytes "Authorization") r.header ≡ bearer s.credential ∷ []
      → let q = sent method text_path s.host r in
        serve_buffered p b now raw q s d ≡ to_api p b now q s d
  unfolding serve_buffered same tailclip.Base.strip_prefix
  buffered_text method now raw r d plain token = ground (
    arith,
    same_refl s.host,
    plain.no_origin,
    plain.no_fetch,
    plain.no_marker,
    is_authorized method text_path r token,
    good.active,
    good.ready,
    good.hosted,
  )

  admit_text :
      (method : Bytes) (r : Request)
      → values (bytes "Authorization") r.header ≡ bearer s.credential ∷ []
      → length r.body ≤ max_body_bytes
      → admit p b s (sent method text_path s.host r) ≡ none
  unfolding admit read_body same
  admit_text method r token short =
      ground
        (arith, same_refl s.host, is_authorized method text_path r token, good.active, good.ready)

  to_api_text :
      (method : Bytes) (now : ℕ) (r : Request) (d : S)
      → s.limiter.count < s.limiter.limit
      → IsPlain r.header
      → values (bytes "Authorization") r.header ≡ bearer s.credential ∷ []
      → let q = sent method text_path s.host r in
        let ((response, m), d') = clipboard_text p.common (api_config p s) b q d in
        to_api p b now q s d ≡ (
          record { status = response.status; reply = api_reply response.reply },
          record s { limiter = (allow now s.limiter).1 },
          d',
        )
  unfolding to_api serve finish same clipboard_text tailclip.Api.security_headers
  to_api_text method now r d room plain token =
      let q = sent method text_path s.host r in
      let cfg = api_config p s in
      let st : State S = record { limiter = s.limiter; desktop = d; log = [] } in
      rw
        (
          protected-allowed p.common cfg none "clipboard" (clipboard_text p.common cfg b) now q st
              (allow_room now s.limiter room).0 (api_authorized method text_path r plain token),
          to_api,
        )
        refl

  admit_get : (r : Request) → admit p b s (sent (bytes "GET") text_path s.host r) ≡ none
  unfolding admit same
  admit_get r = refl

checked_text-short :
    (p : Parsers) (r : Request) (t : Bytes)
    → checked_text p r ≡ ok t
    → length r.body ≤ max_body_bytes
unfolding checked_text read_body
checked_text-short p r t h = ground arith

module _ (p : PairParsers) (s : Service) (good : IsReady s) (m : Memory) (live : m.available ≡ true)
    (now : ℕ) (raw : Option Bytes) (r : Request) (room : s.limiter.count < s.limiter.limit)
    (plain : IsPlain r.header)
    (token : values (bytes "Authorization") r.header ≡ bearer s.credential ∷ []) where
  put_text :
      (t : Bytes)
      → let q = sent (bytes "POST") text_path s.host r in
        checked_text p.common q ≡ ok t
        → serve_http p memory s now raw q s m ≡ (
          record { status = 200; reply = api_reply (stored_reply s.device_name (length t)) },
          record s { limiter = (allow now s.limiter).1 },
          record m { text = t },
        )
  unfolding store memory_write stored_answer
  put_text t c =
      let q = sent (bytes "POST") text_path s.host r in
      let short = checked_text-short p.common q t c in
      admitted p memory s now raw q s m (admit_text p memory s good (bytes "POST") r token short)
      ∙ buffered_text p memory s good (bytes "POST") now raw r m plain token
      ∙ to_api_text p memory s good (bytes "POST") now r m room plain token
      ∙ rw (clipboard_text-post p.common (api_config p s) memory q m refl, c, live) refl

  get_text :
      (t : Bytes)
      → m.text ≡ t
      → IsText t
      → valid_utf8 t ≡ true
      → let q = sent (bytes "GET") text_path s.host r in
        serve_http p memory s now raw q s m ≡ (
          record { status = 200; reply = api_reply (text_reply s.device_name t) },
          record s { limiter = (allow now s.limiter).1 },
          m,
        )
  unfolding read_clipboard memory_read read_answer text_answer
  get_text t e is_text utf8 =
      let q = sent (bytes "GET") text_path s.host r in
      admitted p memory s now raw q s m (admit_get p memory s good r)
      ∙ buffered_text p memory s good (bytes "GET") now raw r m plain token
      ∙ to_api_text p memory s good (bytes "GET") now r m room plain token
      ∙ rw (clipboard_text-get p.common (api_config p s) memory q m refl)
          (ground (arith, is_text.not_empty, is_text.no_nul, is_text.fits))
