-- ===== src/Tests/Server.antt =====
-- The API on concrete requests.
use tailclip.Base.{◌≡◌, ◌≤◌, ◌*◌, ◌⊎◌, ◌↔◌, refl, Option, some, [], ◌∷◌, arith, bytes, ok}
use tailclip.Http.{Request, values, get_header, bearer}
use tailclip.Clipboard.{Memory, memory, new_memory}
use tailclip.Api.{OwnerIdentity}
use tailclip.Api.RateLimit.{new_limiter, granted, granted-le-twice}
use tailclip.Api.Identity.{client_header, client_version, authorize}
use tailclip.Api.Handlers.{Answer, clipboard_text, checked_text}
use tailclip.Api.Access.{IsOwner, authorize_iff}
use tailclip.Api.Transfer.{Posted, post-Posted}
use tailclip.Tests.{parsers, request, settings}

abbrev owner : Option OwnerIdentity
owner = some (λ ctx. some (bytes "ann@x", bytes "pc.t.ts.net"))

abbrev own_request : Request
own_request =
    record (request (bytes "GET") (bytes "/v1/status")
      ((client_header, client_version) ∷ (bytes "Tailscale-User-Login", bytes "ann@x") ∷ []) []) {
        host = bytes "pc.t.ts.net";
      }

authorize_iff_example : (authorize parsers settings owner own_request ≡ ok tt) ↔ (
    ((values client_header own_request.header ≡ [])
      × (get_header (bytes "Authorization") own_request.header ≡ bearer settings.pairing_token))
    ⊎ IsOwner parsers owner own_request)
authorize_iff_example = authorize_iff parsers owner own_request settings

abbrev post_request : Request
post_request =
    request (bytes "POST") (bytes "/v1/clipboard/text")
      ((bytes "Content-Type", bytes "application/json") ∷ []) (bytes "hello")

abbrev answered : Answer × Memory
answered = clipboard_text parsers settings memory post_request new_memory

post-Posted_example :
    Posted memory settings.device_name post_request.ctx
      (checked_text parsers post_request)
      new_memory
      answered.1
      answered.0
post-Posted_example = post-Posted parsers settings memory post_request new_memory refl

granted-le-twice_example : granted (5 ∷ 6 ∷ []) (new_limiter 1 10) ≤ 2 * (new_limiter 1 10).limit
unfolding new_limiter
granted-le-twice_example =
    granted-le-twice 5 10 (5 ∷ 6 ∷ []) (new_limiter 1 10) (ground arith) refl
      ((ground arith, ground arith), ((ground arith, ground arith), tt))
