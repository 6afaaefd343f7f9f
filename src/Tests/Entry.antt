-- ===== src/Tests/Entry.antt =====
-- The simple entry on concrete data: a phone that is paired, and a second one.
use tailclip.Base.{
  ℕ, ◌≡◌, ◌≢◌, ◌<◌, ◌≤◌, ◌⊎◌, ◌↔◌, refl, Bool, true, false, Option, none, some, List, [], ◌∷◌, ◌++◌,
  arith, Bytes, bytes, is_empty, Result, ok, err,
}
use tailclip.Config.Base64.{encode}
use tailclip.Http.{Request, values}
use tailclip.Clipboard.{Memory, memory}
use tailclip.Simple.{Service, Runtime, new_service, set_active, revoke, base_url, close}
use tailclip.Simple.Start.{begin_start}
use tailclip.Simple.Serve.{PairInput, Response, paired_reply, authorized, pair, serve_buffered}
use tailclip.Simple.Pairing.{pair_ok}
use tailclip.Simple.Pairing.Attempts.{
  Attempt, NoneAccepted, attempt_all, looked_at, pair_once, looked_at-le-sixty,
}
use tailclip.Simple.Interleaving.{
  World, resting, cleared, Reach, here, next, activates, begins, IsValid, Reach-IsValid,
  serve_buffered_guard,
}
use tailclip.Tests.{request, pair_parsers, zeros}

abbrev ticket_entry : Service
ticket_entry = record (new_service (bytes "desk")) {
  active = true;
  ready = true;
  host = bytes "a.trycloudflare.com";
  credential = bytes "old";
  ticket = bytes "t";
  expires = 100;
  paired = true;
}

abbrev old_phone : Request
old_phone =
    request (bytes "GET") (bytes "/v1/status") ((bytes "Authorization", bytes "Bearer old") ∷ []) []

abbrev pairing_request : Request
pairing_request = request (bytes "POST") (bytes "/v1/pair") [] (bytes "t")

abbrev paired_entry : Response × Service
paired_entry = pair pair_parsers 7 (some zeros) pairing_request ticket_entry

abbrev next_attempts : List Attempt
next_attempts = (8, some zeros, pairing_request) ∷ []

pair_ok_example :
    (bits : Bytes) × (some zeros ≡ some bits)
    × ((input : PairInput) × (rest : Bytes) × (pair_parsers.decode_pair pairing_request.body
          ≡ some (input, rest))
        × (input.ticket ≡ ticket_entry.ticket))
    × (is_empty ticket_entry.ticket ≡ false)
    × (7 < ticket_entry.expires)
    × (paired_entry.0.reply
        ≡ paired_reply (base_url ticket_entry.host) (encode bits) ticket_entry.device_name)
    × (paired_entry.1.paired ≡ true)
    × (paired_entry.1.credential ≡ encode bits)
    × (paired_entry.1.ticket ≡ [])
unfolding tailclip.Simple.Serve.within_limit pair tailclip.Base.same
    tailclip.Simple.Serve.count_attempt new_service tailclip.Simple.Serve.redeemable
pair_ok_example = pair_ok pair_parsers 7 (some zeros) pairing_request ticket_entry refl

pair_once_example :
    NoneAccepted pair_parsers next_attempts paired_entry.1
    × ((attempt_all pair_parsers next_attempts paired_entry.1).credential
        ≡ paired_entry.1.credential)
unfolding tailclip.Simple.Serve.within_limit pair tailclip.Base.same
    tailclip.Simple.Serve.count_attempt new_service tailclip.Simple.Serve.redeemable
pair_once_example =
    pair_once pair_parsers 7 (some zeros) pairing_request ticket_entry next_attempts refl

looked_at-le-sixty_example : looked_at pair_parsers next_attempts ticket_entry ≤ 60
looked_at-le-sixty_example =
    looked_at-le-sixty pair_parsers 8 next_attempts ticket_entry
      ((refl, ground arith, ground arith), tt)

abbrev active_world : World
active_world = record { service = set_active true (new_service (bytes "desk")); phase = resting }

abbrev started_world : World
started_world = record { service = begin_start active_world.service; phase = cleared }

reached : Reach pair_parsers memory (bytes "desk") started_world
reached = next (next here (activates true)) (begins refl)

Reach-IsValid_example : IsValid started_world.service started_world.phase
Reach-IsValid_example = Reach-IsValid pair_parsers memory (bytes "desk") started_world reached

abbrev stored : Memory
stored = record { text = bytes "x"; available = true }

serve_buffered_guard_example :
    ((serve_buffered pair_parsers memory 7 none old_phone ticket_entry stored).2 ≡ stored)
    ⊎ ((ticket_entry.active ≡ true)
        × (ticket_entry.ready ≡ true)
        × (old_phone.host ≡ ticket_entry.host)
        × (values (bytes "Origin") old_phone.header ≡ [])
        × (values (bytes "Sec-Fetch-Site") old_phone.header ≡ [])
        × (authorized ticket_entry old_phone ≡ true))
serve_buffered_guard_example =
    serve_buffered_guard pair_parsers memory 7 none old_phone ticket_entry stored
