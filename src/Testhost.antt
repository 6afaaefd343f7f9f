-- ===== src/Testhost.antt =====
-- shortcuts/testhost/main.go: the host that the shortcuts of macOS are tested with, over the clipboard
-- of memory that its fixture and the API share. The mutex makes a request to the fixture one step; one to
-- the API is two, since the mutex is free again when its line is in the list, and the API serves it
-- later. The cleaning of paths by `ServeMux` and the escaped form of a path are left out.
pub mod Trace
pub mod Tunnelled
use tailclip.Base.{
  ℕ, zero, suc, ◌*◌, Bool, true, false, not, Option, none, some, List, [], ◌∷◌, ◌++◌, Bytes, bytes,
  same, is_empty, strip_prefix, if◌then◌else◌, Result, ok, err,
}
use tailclip.Http.{Request, Parsers}
use tailclip.Clipboard.{Memory, memory, new_memory, memory_read, memory_write}
use tailclip.Config.Settings.{Config}
use tailclip.Api
use tailclip.Api.{State, Options, new_server}
use tailclip.Api.Handlers.{serve}

-- `strings.Repeat`, of one byte.
abbrev repeat : ℕ → ℕ → Bytes
repeat b zero = []
repeat b (suc n) = b ∷ repeat b n

-- The UTF-8 of 隔離測試電腦.
abbrev pub fixture_name : Bytes
fixture_name =
    233 ∷ 154 ∷ 148 ∷ 233 ∷ 155 ∷ 162 ∷ 230 ∷ 184 ∷ 172 ∷ 232 ∷ 169 ∷ 166 ∷ 233 ∷ 155 ∷ 187 ∷ 232
    ∷ 133 ∷ 166 ∷ []

abbrev pub fixture_token : Bytes
fixture_token = repeat b'A' 43

abbrev pub fixture_config : Config
fixture_config = record {
  version = 1;
  device_name = fixture_name;
  tailscale_device = bytes "fixture";
  pairing_token = fixture_token;
  connection_mode = [];
}

abbrev pub fixture_options : Options Memory
fixture_options = record { clipboard = memory; owner = none; rate_limit = 10_000; rate_window = 0 }

-- `desktop` of the API's state is the clipboard that the fixture reads and writes too.
pub record Host : Type 0 where
  pub api : State Memory
  pub requests : List Bytes

unfoldable pub new_host : Host
new_host = record { api = new_server fixture_options new_memory; requests = [] }

pub data Answer : Type 0 where
  fixture_answer : (text : Bytes) (requests : List Bytes) → Answer
  invalid_fixture : Answer
  api_answer : Api.Response → Answer
  redirect : (location : Bytes) → Answer
  not_found : Answer

-- The text that is read, empty where there is an error, and the requests so far.
unfoldable pub show_fixture : Host → Answer
unfolding memory_read
show_fixture h =
    fixture_answer
      (elim (memory_read h.api.desktop) as (λ _. Bytes) [ ok text ↦ text | err e ↦ [] ]) h.requests

unfoldable pub set_fixture : Bytes → Host → Host
set_fixture text h = record {
  api = record (h.api) { desktop = (memory_write text h.api.desktop).1 };
  requests = [];
}

abbrev pub fixture_limit : ℕ
fixture_limit = 8 * 1_048_576

abbrev pub fixture_path : Bytes
fixture_path = bytes "/fixture"

abbrev pub api_prefix : Bytes
api_prefix = bytes "/tailblink"

-- The line that is kept of a request to the API.
abbrev pub line_of : Request → Bytes
line_of r = r.method ++ (b' ' ∷ r.path)

unfoldable pub note_request : Request → Host → Host
note_request r h = record h { requests = h.requests ++ line_of r ∷ [] }

-- `decode` is `encoding/json` on the first value of a body that is cut off at the limit: the field
-- `Text`, empty if there is none.
module _ (p : Parsers) (decode : ℕ → Request → Option Bytes) where
  unfoldable pub fixture : Request → Host → Answer × Host
  fixture r h =
      if same r.method (bytes "POST")
      then elim (decode fixture_limit r) [
        | none ↦ (invalid_fixture, h)
        | some text ↦ let h' = set_fixture text h in (show_fixture h', h')
      ]
      else (show_fixture h, h)

  served : Host → Api.Response × State Memory → Answer × Host
  served h (response, st) = (api_answer response, record h { api = st })

  -- `http.StripPrefix` in front of the API, once the request is in the list.
  unfoldable pub serve_api : ℕ → Request → Host → Answer × Host
  unfolding served
  serve_api now r h = elim (strip_prefix api_prefix r.path) [
    | none ↦ (not_found, h)
    | some path ↦
        served h (serve p fixture_config fixture_options now (record r { path = path }) h.api)
  ]

  -- The route `/tailblink/`, where nothing comes between its two steps.
  unfoldable pub to_api : ℕ → Request → Host → Answer × Host
  unfolding serve_api
  to_api now r h = serve_api now r (note_request r h)

  -- The routes of the multiplexer, for requests one after the other.
  unfoldable pub handle : ℕ → Request → Host → Answer × Host
  handle now r h =
      if same r.path fixture_path
      then fixture r h
      else if same r.path api_prefix
      then (redirect (bytes "/tailblink/"), h)
      else elim (strip_prefix (bytes "/tailblink/") r.path) [
        | none ↦ (not_found, h)
        | some _ ↦ to_api now r h
      ]

-- What is written for the test: the address of the host, and what a shortcut is paired with.
pub record Published : Type 0 where
  pub url : Bytes
  pub version : ℕ
  pub base_url : Bytes
  pub token : Bytes
  pub device_name : Bytes
  pub tailscale_device : Bytes

unfoldable pub publish : (address : Bytes) → Published
publish address =
    let url = bytes "http://" ++ address in
    record {
      url = url;
      version = 1;
      base_url = url ++ bytes "/tailblink/v1";
      token = fixture_token;
      device_name = fixture_name;
      tailscale_device = bytes "fixture";
    }

pub data Panic : Type 0 where
  no_state no_listener no_file : Panic

-- `main` up to its serving: the flag, the address of the listener that could be opened, and whether
-- the file was written.
unfoldable pub begin : Bytes → Option Bytes → Bool → Result Panic (Published × Host)
begin state listener written = if is_empty state then err no_state else elim listener [
  | none ↦ err no_listener
  | some address ↦ if not written then err no_file else ok (publish address, new_host)
]
