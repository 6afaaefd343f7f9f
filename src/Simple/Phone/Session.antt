-- ===== src/Simple/Phone/Session.antt =====
-- A phone's session with the simple entry: a ticket is redeemed, and then a text sent and pulled.
use tailclip.Base.{
  ℕ, ◌+◌, ◌≤◌, ◌<◌, ◌≡◌, refl, true, false, some, [], ◌∷◌, arith, ◌∙◌, Bytes, bytes, length,
  is_empty, valid_utf8, ok, ap, none, subst,
}
use tailclip.Config.Base64.{encode, encode-not_empty}
use tailclip.Http.{Request, values, bearer}
use tailclip.Clipboard.{Memory, memory}
use tailclip.Api.{text_reply, stored_reply}
use tailclip.Api.Handlers.{checked_text}
use tailclip.Api.Transfer.{checked_text-IsText}
use tailclip.Api.RateLimit.{Limiter, new_limiter, allow}
use tailclip.Simple.{
  ticket_lifetime, fresh_limiter, Service, Ticket, new_pairing, base_url, set_credential,
}
use tailclip.Simple.Serve.{
  PairParsers, paired_reply, api_reply, pair_path, text_path, count_attempt, redeem, serve_http,
}
use tailclip.Simple.Phone.{
  sent, IsPlain, IsReady, admitted, admit_pair, buffered_pair, pair_accepted, put_text, get_text,
  allow_room,
}

-- An entry that waits for a phone with the ticket.
pub record Offers (s : Service) (ticket : Ticket) : Type 0 where
  pub active : s.active ≡ true
  pub ready : s.ready ≡ true
  pub hosted : is_empty s.host ≡ false
  pub has_ticket : is_empty s.ticket ≡ false
  pub same_ticket : s.ticket ≡ ticket.ticket
  pub same_expiry : s.expires ≡ ticket.expires_at
  pub same_url : ticket.base_url ≡ base_url s.host

pub new_pairing-Offers :
    (now : ℕ) (bits : Bytes) (s s' : Service) (ticket : Ticket)
    → new_pairing now (some bits) s ≡ ok (ticket, s')
    → s.active ≡ true
    → is_empty s.host ≡ false
    → is_empty bits ≡ false
    → Offers s' ticket
unfolding new_pairing
new_pairing-Offers now bits s s' ticket h active hosted some_bits = record {
  active = ground arith;
  ready = ground arith;
  hosted = ground arith;
  has_ticket = ground (arith, encode-not_empty bits some_bits);
  same_ticket = ground arith;
  same_expiry = ground arith;
  same_url = ground arith;
}

pub new_pairing-expires :
    (now : ℕ) (bits : Bytes) (s s' : Service) (ticket : Ticket)
    → new_pairing now (some bits) s ≡ ok (ticket, s')
    → now + ticket_lifetime ≡ ticket.expires_at
unfolding new_pairing
new_pairing-expires now bits s s' ticket h = ground arith

redeem-IsReady :
    (now : ℕ) (bits : Bytes) (s : Service) (ticket : Ticket)
    → Offers s ticket
    → is_empty bits ≡ false
    → IsReady (redeem (encode bits) (count_attempt now s)).1
unfolding redeem count_attempt set_credential
redeem-IsReady now bits s ticket o some_bits = record {
  active = ground (arith, o.active);
  ready = ground (arith, o.ready);
  hosted = ground (arith, o.hosted);
  paired = ground arith;
  has_credential = ground (arith, encode-not_empty bits some_bits);
}

redeemed :
    (p : PairParsers) (s : Service) (m : Memory) (now : ℕ) (bits rest : Bytes) (ticket : Ticket)
    (r : Request)
    → Offers s ticket
    → IsPlain r.header
    → length r.body ≤ 4096
    → p.decode_pair r.body ≡ some (record { version = bytes "1"; ticket = ticket.ticket }, rest)
    → p.is_eof rest ≡ true
    → now < ticket.expires_at
    → (count_attempt now s).attempts ≤ 30
    → let q = sent (bytes "POST") pair_path s.host r in
      let (response, t) = redeem (encode bits) (count_attempt now s) in
      serve_http p memory s now (some bits) q s m ≡ (response, t, m)
redeemed p s m now bits rest ticket r o plain short e eof soon few =
    let q = sent (bytes "POST") pair_path s.host r in
    let soon' : now < s.expires = omega (arith, soon, o.same_expiry) in
    let e' : p.decode_pair r.body ≡ some (record { version = bytes "1"; ticket = s.ticket }, rest) =
      rw o.same_ticket e in
    admitted p memory s now (some bits) q s m (admit_pair p memory r s o.active o.ready short)
    ∙ buffered_pair p memory now (some bits) r s m o.active o.ready o.hosted plain
    ∙ rw (pair_accepted p memory now bits s.host rest r s soon' o.has_ticket few short e' eof) refl

-- What a redeemed ticket leaves of the entry.
redeem-keeps :
    (now : ℕ) (bits : Bytes) (s : Service)
    → let t = (redeem (encode bits) (count_attempt now s)).1 in
      (t.host ≡ s.host)
      × (t.device_name ≡ s.device_name)
      × (t.credential ≡ encode bits)
      × (t.limiter ≡ fresh_limiter)
      × ((redeem (encode bits) (count_attempt now s)).0 ≡ record {
        status = 200;
        reply = paired_reply (base_url s.host) (encode bits) s.device_name;
      })
unfolding redeem count_attempt set_credential
redeem-keeps now bits s = ground arith

-- A fresh limiter lets two requests through.
fresh_room :
    (now : ℕ) (l : Limiter)
    → l ≡ fresh_limiter
    → (l.count < l.limit) × ((allow now l).1.count < (allow now l).1.limit)
unfolding new_limiter
fresh_room now l e =
    let empty : l.count ≡ 0 = ap (λ (x : Limiter). x.count) e in
    let sixty : l.limit ≡ 60 = ap (λ (x : Limiter). x.limit) e in
    let room : l.count < l.limit = omega arith in
    let (_, limit, count) = allow_room now l room in (room, omega arith)

module _ (p : PairParsers) (m : Memory) (live : m.available ≡ true) (put_at get_at : ℕ)
    (put get : Request) (plain_put : IsPlain put.header) (plain_get : IsPlain get.header) where
  abbrev Exchanged : Service → (host text : Bytes) → Type 0
  Exchanged s host text =
      let (stored, t, n) =
        serve_http p memory s put_at none (sent (bytes "POST") text_path host put) s m in
      let (pulled, _, _) =
        serve_http p memory t get_at none (sent (bytes "GET") text_path host get) t n in
      (stored
        ≡ record { status = 200; reply = api_reply (stored_reply s.device_name (length text)) })
      × (pulled ≡ record { status = 200; reply = api_reply (text_reply s.device_name text) })

  Exchanged-own :
      (s : Service) (text : Bytes)
      → IsReady s
      → s.limiter ≡ fresh_limiter
      → values (bytes "Authorization") put.header ≡ bearer s.credential ∷ []
      → values (bytes "Authorization") get.header ≡ bearer s.credential ∷ []
      → checked_text p.common (sent (bytes "POST") text_path s.host put) ≡ ok text
      → valid_utf8 text ≡ true
      → Exchanged s s.host text
  Exchanged-own s text good fresh auth_put auth_get checked utf8 =
      let (room, room') = fresh_room put_at s.limiter fresh in
      let l = (allow put_at s.limiter).1 in
      let good' : IsReady (record s { limiter = l }) = record {
        active = good.active;
        ready = good.ready;
        hosted = good.hosted;
        paired = good.paired;
        has_credential = good.has_credential;
      } in
      let is_text =
        checked_text-IsText p.common (sent (bytes "POST") text_path s.host put) text checked in
      rw (put_text p s good m live put_at none put room plain_put auth_put text checked) (
        refl,
        ap (λ answer. answer.0)
            (get_text p (record s { limiter = l }) good' (record m { text = text }) live get_at none
              get room' plain_get auth_get text refl is_text utf8),
      )

  Exchanged-at :
      (s : Service) (host token text : Bytes)
      → IsReady s
      → s.host ≡ host
      → s.credential ≡ token
      → s.limiter ≡ fresh_limiter
      → values (bytes "Authorization") put.header ≡ bearer token ∷ []
      → values (bytes "Authorization") get.header ≡ bearer token ∷ []
      → checked_text p.common (sent (bytes "POST") text_path host put) ≡ ok text
      → valid_utf8 text ≡ true
      → Exchanged s host text
  Exchanged-at s host token text good same_host same_token fresh auth_put auth_get checked utf8 =
      subst (λ h. Exchanged s h text) same_host
        (Exchanged-own s text good fresh (rw same_token auth_put) (rw same_token auth_get)
          (rw same_host checked) utf8)

-- A scanned ticket works: where the entry is active and has an address, a phone that redeems a new
-- ticket within five minutes, with at most thirty attempts in the current minute, is paired and given
-- the entry's address with a new credential. With this credential it stores a text, if that is
-- valid UTF-8 and passes the check of a POST, in the clipboard of memory, and pulls the same text with
-- the next request. The phone sends neither a browser's headers nor the new shortcuts' marker, and
-- nothing else reaches the entry in between.
pub session-roundtrip :
    (p : PairParsers) (s t : Service) (m : Memory) (ticket : Ticket)
    (made redeem_at put_at get_at : ℕ) (ticket_bits bits rest text : Bytes)
    (redeem_request put get : Request)
    → new_pairing made (some ticket_bits) s ≡ ok (ticket, t)
    → s.active ≡ true
    → is_empty s.host ≡ false
    → m.available ≡ true
    → is_empty ticket_bits ≡ false
    → is_empty bits ≡ false
    → IsPlain redeem_request.header
    → IsPlain put.header
    → IsPlain get.header
    → length redeem_request.body ≤ 4096
    → p.decode_pair redeem_request.body
      ≡ some (record { version = bytes "1"; ticket = ticket.ticket }, rest)
    → p.is_eof rest ≡ true
    → redeem_at < made + ticket_lifetime
    → (count_attempt redeem_at t).attempts ≤ 30
    → values (bytes "Authorization") put.header ≡ bearer (encode bits) ∷ []
    → values (bytes "Authorization") get.header ≡ bearer (encode bits) ∷ []
    → checked_text p.common (sent (bytes "POST") text_path t.host put) ≡ ok text
    → valid_utf8 text ≡ true
    → let (paired, u, n) =
        serve_http p memory t redeem_at
          (some bits)
          (sent (bytes "POST") pair_path t.host redeem_request)
          t
          m in
      let (stored, v, o) =
        serve_http p memory u put_at none (sent (bytes "POST") text_path t.host put) u n in
      let (pulled, _, _) =
        serve_http p memory v get_at none (sent (bytes "GET") text_path t.host get) v o in
      (paired
        ≡ record { status = 200; reply = paired_reply ticket.base_url (encode bits) t.device_name })
      × (stored
          ≡ record { status = 200; reply = api_reply (stored_reply t.device_name (length text)) })
      × (pulled ≡ record { status = 200; reply = api_reply (text_reply t.device_name text) })
session-roundtrip p s t m ticket made redeem_at put_at get_at ticket_bits bits rest text
      redeem_request put get issued active hosted live some_ticket some_bits plain plain_put
      plain_get short decoded eof soon few auth_put auth_get checked utf8 =
    let o = new_pairing-Offers made ticket_bits s t ticket issued active hosted some_ticket in
    let u = (redeem (encode bits) (count_attempt redeem_at t)).1 in
    let (same_host, same_name, same_token, fresh, reply) = redeem-keeps redeem_at bits t in
    let both : Exchanged p m live put_at get_at put get plain_put plain_get u t.host text =
      Exchanged-at p m live put_at get_at put get plain_put plain_get u t.host (encode bits) text
        (redeem-IsReady redeem_at bits t ticket o some_bits) same_host same_token fresh auth_put
        auth_get checked utf8 in
    let soon' : redeem_at < ticket.expires_at =
      subst (λ e. redeem_at < e) (new_pairing-expires made ticket_bits s t ticket issued) soon in
    rw
      (redeemed p t m redeem_at bits rest ticket redeem_request o plain short decoded eof soon' few)
      (rw (o.same_url, reply) refl, rw same_name at both.0, rw same_name at both.1)
