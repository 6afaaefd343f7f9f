-- ===== src/Simple.antt =====
-- internal/simple/service.go: the state of the simple entry and its small operations. The mutex `mu`
-- makes each of them one step. Random draws, the clock and the tunnel are arguments. Times are
-- nanoseconds, and 0 is Go's zero `Time`.
pub mod Start
pub mod Serve
pub mod Pairing
pub mod Interleaving
pub mod Phone
use tailclip.Base.{
  ℕ, ◌+◌, ◌-◌, ◌*◌, ◌==◌, Bool, true, false, not, ◌&&◌, ◌||◌, Option, none, some, List, [], ◌∷◌,
  ◌++◌, Bytes, bytes, is_empty, is_none, ltb, leb, if◌then◌else◌, Result, ok, err, ◌>>=◌,
}
use tailclip.Config.Base64.{encode}
use tailclip.Api.RateLimit.{Limiter, new_limiter, minute}

pub data SimpleError : Type 0 where
  not_ready no_random no_port not_started bad_url not_reachable tunnel_ended : SimpleError

-- A tunnel process that was started; `id` tells one from another.
pub record Runtime : Type 0 where
  pub id : ℕ

-- `limiter` is what the handler in the field `api` keeps: it is made anew with each credential.
pub record Service : Type 0 where
  pub device_name : Bytes
  pub active : Bool
  pub ready : Bool
  pub paired : Bool
  pub host : Bytes
  pub session : Bytes
  pub credential : Bytes
  pub ticket : Bytes
  pub expires : ℕ
  pub attempts : ℕ
  pub attempt_window : ℕ
  pub runtime : Option Runtime
  pub limiter : Limiter

-- What the phone is given in the QR's page.
pub record Ticket : Type 0 where
  pub version : ℕ
  pub transport : Bytes
  pub base_url : Bytes
  pub ticket : Bytes
  pub expires_at : ℕ

-- The limiter of `api.New` with neither a limit nor a window in its options.
abbrev pub fresh_limiter : Limiter
fresh_limiter = new_limiter 60 minute

unfoldable pub new_service : Bytes → Service
new_service device = record {
  device_name = device;
  active = false;
  ready = false;
  paired = false;
  host = [];
  session = [];
  credential = [];
  ticket = [];
  expires = 0;
  attempts = 0;
  attempt_window = 0;
  runtime = none;
  limiter = fresh_limiter;
}

-- `config.GenerateToken`, as far as its result goes.
abbrev pub draw : Option Bytes → Result SimpleError Bytes
draw none = err no_random
draw (some raw) = ok (encode raw)

unfoldable pub set_credential : Bytes → Service → Service
set_credential token s = record s { credential = token; limiter = fresh_limiter }

unfoldable pub set_active : Bool → Service → Service
set_active active s = record s { active = active }

unfoldable pub is_paired : Service → Bool
is_paired s = s.ready && s.paired

unfoldable pub pairing_pending : ℕ → Service → Bool
pairing_pending now s = s.ready && not (is_empty s.ticket) && ltb now s.expires

abbrev pub ticket_lifetime : ℕ
ticket_lifetime = 5 * minute

abbrev pub base_url : Bytes → Bytes
base_url host = bytes "https://" ++ host ++ bytes "/v1"

issue : ℕ → Bytes → Service → Ticket × Service
issue now ticket s = (
  record {
    version = 1;
    transport = bytes "cloudflare";
    base_url = base_url s.host;
    ticket = ticket;
    expires_at = now + ticket_lifetime;
  },
  record s { ticket = ticket; expires = now + ticket_lifetime },
)

unfoldable pub new_pairing : ℕ → Option Bytes → Service → Result SimpleError (Ticket × Service)
unfolding issue
new_pairing now raw s =
    if not s.ready || is_none s.runtime
    then err not_ready
    else draw raw >>= λ ticket. ok (issue now ticket s)

unfoldable pub revoke : Option Bytes → Service → Result SimpleError Service
unfolding set_credential
revoke raw s = do
  token ← draw raw
  ok (record (set_credential token s) { paired = false; ticket = []; expires = 0 })

unfoldable pub clear : Service → Service
clear s = record s {
  ready = false;
  paired = false;
  credential = [];
  ticket = [];
  host = [];
  session = [];
  expires = 0;
}

-- The runtime that is given back is closed after the lock is released.
unfoldable pub close : Service → Service × Option Runtime
unfolding clear
close s = (clear (record s { runtime = none; active = false }), s.runtime)
