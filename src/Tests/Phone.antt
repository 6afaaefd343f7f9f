-- ===== src/Tests/Phone.antt =====
-- A phone's session with the simple entry, and the test hosts, on concrete requests.
use tailclip.Base.{
  ℕ, ◌+◌, ◌≡◌, refl, true, false, some, none, Option, List, [], ◌∷◌, ◌++◌, arith, Bytes, bytes,
  length, valid_utf8,
}
use tailclip.Config.Base64.{encode}
use tailclip.Http.{Request, Header, values, get_header, bearer}
use tailclip.Clipboard.{memory, new_memory}
use tailclip.Api.{text_reply, stored_reply}
use tailclip.Api.Handlers.{checked_text}
use tailclip.Simple.{Service, Ticket, new_service, new_pairing, base_url, ticket_lifetime}
use tailclip.Simple.Serve.{paired_reply, api_reply, serve_http, count_attempt, pair_path, text_path}
use tailclip.Simple.Phone.{sent}
use tailclip.Simple.Phone.Session.{session-roundtrip}
use tailclip.Testhost.{
  show_fixture, fixture_answer, new_host, fixture_token, api_prefix, fixture_path,
}
use tailclip.Testhost.Trace.{Event, asked, noted, answered, run, predicted, run-predicted}
use tailclip.Tests.{parsers, pair_parsers, request}

abbrev entry : Service
entry = record (new_service (bytes "desk")) {
  active = true;
  ready = true;
  host = bytes "a.trycloudflare.com";
  runtime = some (record { id = 1 });
}

abbrev ticket_text : Bytes
ticket_text = bytes "AAAA"

abbrev ticket : Ticket
ticket = record {
  version = 1;
  transport = bytes "cloudflare";
  base_url = base_url (bytes "a.trycloudflare.com");
  ticket = ticket_text;
  expires_at = 7 + ticket_lifetime;
}

abbrev offering : Service
offering = record entry { ticket = ticket_text; expires = 7 + ticket_lifetime }

abbrev token_header : Header
token_header =
    (bytes "Authorization", bearer (bytes "AQID"))
    ∷ (bytes "Content-Type", bytes "application/json")
    ∷ []

abbrev redeeming : Request
redeeming = request (bytes "POST") (bytes "/") [] ticket_text

abbrev putting : Request
putting = request (bytes "POST") (bytes "/") token_header (bytes "hello")

abbrev getting : Request
getting = request (bytes "GET") (bytes "/") token_header []

session-roundtrip_example :
    let (paired, u, n) =
      serve_http pair_parsers memory offering 8
        (some (1 ∷ 2 ∷ 3 ∷ []))
        (sent (bytes "POST") pair_path offering.host redeeming)
        offering
        new_memory in
    let (stored, v, o) =
      serve_http pair_parsers memory u 9 none
        (sent (bytes "POST") text_path offering.host putting)
        u
        n in
    let (pulled, _, _) =
      serve_http pair_parsers memory v 10 none
        (sent (bytes "GET") text_path offering.host getting)
        v
        o in
    (paired ≡ record {
      status = 200;
      reply = paired_reply ticket.base_url (encode (1 ∷ 2 ∷ 3 ∷ [])) offering.device_name;
    })
    × (stored ≡ record { status = 200; reply = api_reply (stored_reply offering.device_name 5) })
    × (pulled ≡ record {
      status = 200;
      reply = api_reply (text_reply offering.device_name (bytes "hello"));
    })
unfolding new_pairing encode tailclip.Config.Base64.encode_digit values tailclip.Base.same
    count_attempt new_service checked_text get_header tailclip.Http.read_body valid_utf8
    tailclip.Base.contains_byte
session-roundtrip_example =
    session-roundtrip pair_parsers entry offering new_memory ticket 7 8 9 10 (0 ∷ 0 ∷ 0 ∷ [])
      (1 ∷ 2 ∷ 3 ∷ []) [] (bytes "hello") redeeming putting getting refl refl refl refl refl refl
      (record { no_origin = refl; no_fetch = refl; no_marker = refl })
      (record { no_origin = refl; no_fetch = refl; no_marker = refl })
      (record { no_origin = refl; no_fetch = refl; no_marker = refl }) (ground arith) refl refl
      (ground arith) (ground arith) refl refl refl refl

abbrev pulling : Request
pulling =
    request (bytes "GET") (api_prefix ++ text_path)
      ((bytes "Authorization", bearer fixture_token) ∷ []) []

-- The fixture is given a text between the two steps of a request that pulls it.
abbrev visits : List Event
visits =
    noted pulling
    ∷ asked (request (bytes "POST") fixture_path [] (bytes "seed"))
    ∷ answered 2 pulling
    ∷ []

abbrev decode : ℕ → Request → Option Bytes
decode limit r = some r.body

run-predicted_example : show_fixture (run parsers decode visits new_host) ≡ (
    let (text, requests) = predicted parsers decode visits new_host ([], []) in
    fixture_answer text requests)
run-predicted_example = run-predicted parsers decode visits
