-- ===== src/Api.antt =====
-- internal/api/server.go: the server's options, its replies and its log. The texts of the messages
-- are those of the source; a reply is the JSON value by its fields.
pub mod RateLimit
pub mod Identity
pub mod Refusals
pub mod Handlers
pub mod Access
pub mod Protected
pub mod Transfer
use tailclip.Base.{
  ℕ, ◌+◌, ◌*◌, Bool, Option, none, some, List, [], ◌∷◌, ◌++◌, ◌==◌, if◌then◌else◌, Bytes, String,
}
use tailclip.Clipboard.{Context, Backend}
use tailclip.Config.Settings.{Config}
use RateLimit.{Limiter, new_limiter, minute}

abbrev pub max_text_bytes : ℕ
max_text_bytes = 1_048_576

abbrev pub max_body_bytes : ℕ
max_body_bytes = max_text_bytes * 6 + 4096

pub data Reply : Type 0 where
  health_reply : (owner_known : Bool) → Reply
  status_reply : (device_name tailscale_device : Bytes) (clipboard_available : Bool) → Reply
  empty_reply : (device_name : Bytes) → Reply
  text_reply : (device_name text : Bytes) → Reply
  stored_reply : (device_name : Bytes) (bytes : ℕ) → Reply
  error_reply : (code message : String) → Reply
  not_found_reply : Reply

abbrev pub ResponseHeader : Type 0
ResponseHeader = List (String × String)

pub record Response : Type 0 where
  pub status : ℕ
  pub header : ResponseHeader
  pub reply : Reply

-- What a request is refused with.
pub record Refusal : Type 0 where
  pub status : ℕ
  pub code : String
  pub message : String

abbrev pub json_header : ResponseHeader
json_header =
    ("Content-Type", "application/json; charset=utf-8") ∷ ("Cache-Control", "no-store") ∷ []

unfoldable pub write_json : ℕ → Reply → Response
write_json status reply = record { status = status; header = json_header; reply = reply }

unfoldable pub write_error : Refusal → Response
unfolding write_json
write_error f = write_json f.status (error_reply f.code f.message)

unfoldable pub security_headers : Response → Response
security_headers r = record r {
  header = ("X-Content-Type-Options", "nosniff") ∷ ("Referrer-Policy", "no-referrer") ∷ r.header;
}

-- `http.NotFound`, for a path that no handler is registered for; it sets `nosniff` once more.
abbrev pub not_found : Response
not_found = record {
  status = 404;
  header = ("Content-Type", "text/plain; charset=utf-8") ∷ [];
  reply = not_found_reply;
}

-- `requestMetrics`.
pub record Metrics : Type 0 where
  pub bytes : ℕ
  pub error_code : String

-- A line of the log; the latency is left out.
pub record Entry : Type 0 where
  pub direction : String
  pub bytes : ℕ
  pub status : ℕ
  pub error_code : String

-- The name of the owner of this node and its DNS name; `none` is an error.
abbrev pub OwnerIdentity : Type 0
OwnerIdentity = Context → Option (Bytes × Bytes)

pub record Options (S : Type 0) : Type 0 where
  pub clipboard : Backend S
  pub owner : Option OwnerIdentity
  pub rate_limit : ℕ
  pub rate_window : ℕ

-- What the server keeps, the clipboard behind it included.
pub record State (S : Type 0) : Type 0 where
  pub limiter : Limiter
  pub desktop : S
  pub log : List Entry

unfoldable pub new_server : {S : Type 0} → Options S → S → State S
new_server o desktop = record {
  limiter =
      new_limiter (if o.rate_limit == 0 then 60 else o.rate_limit)
        (if o.rate_window == 0 then minute else o.rate_window);
  desktop = desktop;
  log = [];
}
