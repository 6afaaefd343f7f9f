-- ===== src/Tests/Pages.antt =====
-- The setup pages and the dashboard on concrete requests.
use tailclip.Base.{
  ℕ, ◌≡◌, ◌⊎◌, Bool, true, false, Option, none, some, [], ◌∷◌, Bytes, bytes, Result, ok,
}
use tailclip.Http.{Request, request_is_local}
use tailclip.Webui.{path_parts}
use tailclip.Webui.Dashboard.{DashboardData, Host, is_foreign, serve_dashboard}
use tailclip.Webui.Guards.{name_entry, serve_dashboard_guard}
use tailclip.Tests.{parsers, request}

abbrev contents : DashboardData
contents = record {
  mode = bytes "choose";
  message = [];
  simple_paired = false;
  device_name = bytes "desk";
  dns_name = [];
  pairing_url = [];
  expires_at = 0;
  clipboard_available = true;
  shortcuts_ready = true;
}

abbrev host : Host
host = record {
  listening = true;
  timer = some 50;
  entries = (bytes "id", record { contents = contents; operation_error = [] }) ∷ [];
}

-- A state that counts the calls.
abbrev provide : Bool → ℕ → Result Bytes DashboardData × ℕ
provide rotate n = (ok contents, n)

abbrev configure : Bytes → ℕ → Option Bytes × ℕ
configure action n = (none, 7)

abbrev form : Request → Option Bytes
form r = some (bytes "simple")

abbrev action_request : Request
action_request =
    record (request (bytes "POST") (bytes "/dashboard/id/action")
      ((bytes "Origin", bytes "http://evil") ∷ []) []) { host = bytes "127.0.0.1" }

serve_dashboard_guard_example :
    ((serve_dashboard parsers form provide configure 9 none action_request host 3).2 ≡ 3)
    ⊎ ((request_is_local parsers action_request ≡ true)
        × (name_entry (path_parts action_request.path) host ≡ true)
        × ((action_request.method ≡ bytes "GET") ⊎ (is_foreign action_request ≡ false)))
serve_dashboard_guard_example =
    serve_dashboard_guard parsers form provide configure 9 none action_request host 3
