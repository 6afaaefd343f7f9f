-- ===== src/Webui/Dashboard.antt =====
-- internal/webui/dashboard_host.go: `DashboardHost`. The provider of the data and `Configure` are the
-- agent's, the same for each entry, and `Configure` is never nil: both places of the agent that make the
-- data set it, so the two tests for it are left out; `A` is the agent's state. A request is one step here, although
-- the lock is only held for the accesses to the entries. The listener may fail to open.
use tailclip.Base.{
  ℕ, ◌+◌, ◌*◌, Bool, true, false, not, ◌&&◌, ◌||◌, Option, none, some, List, [], ◌∷◌, ◌++◌, ltb,
  leb, Bytes, bytes, same, length, is_empty, trim_space, if◌then◌else◌, Result, ok, err, String,
}
use tailclip.Base.Map.{Map, get, put, delete}
use tailclip.Config.Base64.{encode}
use tailclip.Http.{Request, Parsers, values, get_header, request_is_local}
use tailclip.Webui.{path_parts}

abbrev pub idle_timeout : ℕ
idle_timeout = 20 * 60 * 1_000_000_000

pub record DashboardData : Type 0 where
  pub mode : Bytes
  pub message : Bytes
  pub simple_paired : Bool
  pub device_name : Bytes
  pub dns_name : Bytes
  pub pairing_url : Bytes
  pub expires_at : ℕ
  pub clipboard_available : Bool
  pub shortcuts_ready : Bool

-- The paths of an entry follow from its id, under which it stands.
pub record Entry : Type 0 where
  pub contents : DashboardData
  pub operation_error : Bytes

-- `timer` is the time at which the host is closed.
pub record Host : Type 0 where
  pub listening : Bool
  pub timer : Option ℕ
  pub entries : Map Entry

abbrev pub new_host : Host
new_host = record { listening = false; timer = none; entries = [] }

pub data HostError : Type 0 where
  no_random no_port : HostError
  no_data : Bytes → HostError

pub data View : Type 0 where
  message : (status : ℕ) (text : String) → View
  not_found : View
  dashboard : (id : Bytes) (contents : DashboardData) → View
  see_other : (id : Bytes) → View

unfoldable pub close_host : Host → Host
close_host h = if not h.listening then record h { timer = none } else new_host

-- What the timer does.
unfoldable pub tick : ℕ → Host → Host
unfolding close_host
tick now h = elim h.timer [ none ↦ h | some t ↦ if leb t now then close_host h else h ]

abbrev pub reset_timer : ℕ → Host → Host
reset_timer now h = record h { timer = some (now + idle_timeout) }

abbrev own_origin : Request → Bytes
own_origin r = bytes "http://" ++ r.host

-- A POST from a page of another site.
unfoldable pub is_foreign : Request → Bool
is_foreign r =
    let origin = get_header (bytes "Origin") r.header in
    ltb 1 (length (values (bytes "Origin") r.header))
    || (not (is_empty origin) && not (same origin (own_origin r)))

-- The message of a page that is shown again after an operation that failed.
unfoldable pub with_error : Bytes → DashboardData → DashboardData
with_error operation_error d =
    if is_empty operation_error
    then d
    else record d { message = trim_space (operation_error ++ b' ' ∷ d.message) }

-- A GET takes the message of the last operation with it.
unfoldable pub touched : ℕ → Request → Bytes → Entry → Host → Host
touched now r id e h =
    let h' = reset_timer now h in
    if same r.method (bytes "GET")
    then record h' { entries = put id (record e { operation_error = [] }) h'.entries }
    else h'

module _ {A : Type 0} (provider : Bool → A → Result Bytes DashboardData × A) where
  unfoldable pub opened :
      ℕ
      → Option Bytes
      → Bool
      → Host
      → Result Bytes DashboardData × A
      → Result HostError Bytes × Host × A
  opened now bits port h (err e, a) = (err (no_data e), h, a)
  opened now bits port h (ok d, a) = elim bits [
    | none ↦ (err no_random, h, a)
    | some raw ↦ if not h.listening && not port then (err no_port, h, a) else (
      ok (encode raw),
      record h {
        listening = true;
        timer = some (now + idle_timeout);
        entries = put (encode raw) (record { contents = d; operation_error = [] }) h.entries;
      },
      a,
    )
  ]

  unfoldable pub open_dashboard :
      ℕ → Option Bytes → Bool → Host → A → Result HostError Bytes × Host × A
  unfolding opened
  open_dashboard now bits port h a = opened now bits port h (provider false a)

-- `form_action` is `ParseForm` on a body of at most 1024 bytes, and the field `action` of the form.
module _ (p : Parsers) (form_action : Request → Option Bytes) {A : Type 0}
    (provider : Bool → A → Result Bytes DashboardData × A)
    (configure : Bytes → A → Option Bytes × A) where
  shown : Bytes → Entry → Host → Result Bytes DashboardData × A → View × Host × A
  shown id e h (err x, a) = (message 503 "無法更新連線狀態。", h, a)
  shown id e h (ok d, a) = (dashboard id (with_error e.operation_error d), h, a)

  error_text : Option Bytes → Bytes
  error_text none = []
  error_text (some e) = e

  acted : Bytes → Host → Option Bytes → Result Bytes DashboardData × A → View × Host × A
  unfolding error_text
  acted id h problem (err x, a) = (message 503 "無法更新連線狀態。", h, a)
  acted id h problem (ok d, a) = (
    see_other id,
    record h {
      entries = put id (record { contents = d; operation_error = error_text problem }) h.entries;
    },
    a,
  )

  act : Bytes → Host → Option Bytes × A → View × Host × A
  unfolding acted
  act id h (problem, a) = acted id h problem (provider false a)

  action_request : Request → Bytes → Host → A → View × Host × A
  unfolding act
  action_request r id h a = elim (form_action r) [
    | none ↦ (message 400 "設定資料無效。", h, a)
    | some action ↦ act id h (configure action a)
  ]

  rotated : ℕ → Option Bytes → Bytes → Host → Result Bytes DashboardData × A → View × Host × A
  rotated now bits old h (err x, a) = (message 500 "無法撤銷舊配對，設定未變更。", h, a)
  rotated now bits old h (ok d, a) = elim bits [
    | none ↦ (message 500 "無法建立新的設定頁。", h, a)
    | some raw ↦ (
      see_other (encode raw),
      record h {
        timer = some (now + idle_timeout);
        entries =
            put (encode raw) (record { contents = d; operation_error = [] }) (delete old h.entries);
      },
      a,
    )
  ]

  -- The entry is known from here on; `more` is the rest of the path.
  unfoldable pub entry_request :
      ℕ → Option Bytes → Request → Bytes → List Bytes → Entry → Host → A → View × Host × A
  unfolding shown action_request rotated
  entry_request now bits r id more e h a =
      if is_empty more && same r.method (bytes "GET")
      then shown id e h (provider false a)
      else if same r.method (bytes "POST") && is_foreign r
      then (message 403 "不允許跨網站變更設定。", h, a)
      else elim more [
        | [] ↦ (message 405 "不支援的操作。", h, a)
        | part ∷ rest ↦
            if is_empty rest && same part (bytes "action") && same r.method (bytes "POST")
            then action_request r id h a
            else if is_empty rest && same part (bytes "rotate") && same r.method (bytes "POST")
            then rotated now bits id h (provider true a)
            else (message 405 "不支援的操作。", h, a)
      ]

  looked_up :
      ℕ → Option Bytes → Request → Bytes → List Bytes → Option Entry → Host → A → View × Host × A
  unfolding entry_request touched
  looked_up now bits r id more none h a = (not_found, h, a)
  looked_up now bits r id more (some e) h a =
      entry_request now bits r id more e (touched now r id e h) a

  unfoldable pub at_parts : ℕ → Option Bytes → Request → List Bytes → Host → A → View × Host × A
  unfolding looked_up
  at_parts now bits r (first ∷ id ∷ more) h a =
      if same first (bytes "dashboard")
      then looked_up now bits r id more (get id h.entries) h a
      else (not_found, h, a)
  at_parts now bits r _ h a = (not_found, h, a)

  -- `DashboardHost.ServeHTTP`.
  unfoldable pub serve_dashboard : ℕ → Option Bytes → Request → Host → A → View × Host × A
  unfolding at_parts
  serve_dashboard now bits r h a =
      if not (request_is_local p r)
      then (message 403 "只允許從這台電腦開啟。", h, a)
      else at_parts now bits r (path_parts r.path) h a
