-- ===== src/Webui.antt =====
-- internal/webui/webui.go and dashboard_host.go: the public setup pages and the local dashboard. A
-- page is a value by what it shows; the HTML, the QR image and the fixed headers are left out. The JSON
-- of the pairing data, four texts and a number, is always made.
pub mod Dashboard
pub mod Guards
pub mod Rendering
pub mod Paths
use tailclip.Base.{
  ℕ, Bool, true, false, not, ◌&&◌, ◌||◌, Option, none, some, List, [], ◌∷◌, ◌==◌, Bytes, bytes,
  same, reverse, is_empty, if◌then◌else◌, String,
}
use tailclip.Http.{Request}
use tailclip.Pairing
use tailclip.Pairing.{Session, Manager, lookup}

abbrev slash : ℕ
slash = b'/'

drop_slashes : Bytes → Bytes
drop_slashes [] = []
drop_slashes (c ∷ s) = if c == slash then drop_slashes s else c ∷ s

first_with : ℕ → List Bytes → List Bytes
first_with c [] = (c ∷ []) ∷ []
first_with c (part ∷ parts) = (c ∷ part) ∷ parts

split_slashes : Bytes → List Bytes
unfolding first_with
split_slashes [] = [] ∷ []
split_slashes (c ∷ s) =
    let rest = split_slashes s in if c == slash then [] ∷ rest else first_with c rest

-- `strings.Split(strings.Trim(path, "/"), "/")`.
unfoldable pub path_parts : Bytes → List Bytes
unfolding drop_slashes split_slashes
path_parts path = split_slashes (reverse (drop_slashes (reverse (drop_slashes path))))

pub record Assets : Type 0 where
  pub send : Bytes
  pub pull : Bytes

unfoldable pub ready : Assets → Bool
ready a = not (is_empty a.send) && not (is_empty a.pull)

pub data Page : Type 0 where
  plain : (status : ℕ) (message : String) → Page
  not_found expired : Page
  setup_page : (session : Session) (assets_ready : Bool) → Page
  shortcut_file : (contents : Bytes) (name : String) → Page

unfoldable pub file_of : Bytes → String → Page
file_of contents name =
    if is_empty contents then plain 503 "這個測試版本尚未包含捷徑檔。" else shortcut_file contents name

unfoldable pub shortcut : Assets → Bytes → Page
unfolding file_of
shortcut a name =
    if same name (bytes "TailBlink-Send.shortcut")
    then file_of a.send "TailBlink：傳送.shortcut"
    else if same name (bytes "TailBlink-Pull.shortcut")
    then file_of a.pull "TailBlink：取回.shortcut"
    else expired

-- The session of a page, and the name of a file if the path has a third part.
setup : Assets → List Bytes → Option Session × Manager → Page × Manager
unfolding shortcut
setup a more (none, m) = (expired, m)
setup a [] (some s, m) = (setup_page s (ready a), m)
setup a (name ∷ more) (some s, m) = (shortcut a name, m)

setup_parts : ℕ → Assets → List Bytes → Manager → Page × Manager
unfolding setup
setup_parts now a (first ∷ nonce ∷ []) m =
    if same first (bytes "setup") then setup a [] (lookup now nonce m) else (expired, m)
setup_parts now a (first ∷ nonce ∷ name ∷ []) m =
    if same first (bytes "setup") then setup a (name ∷ []) (lookup now nonce m) else (expired, m)
setup_parts now a _ m = (expired, m)

-- `PublicHandler.ServeHTTP`.
unfoldable pub public_setup : ℕ → Assets → Request → Manager → Page × Manager
unfolding setup_parts
public_setup now a r m =
    if not (same r.method (bytes "GET"))
    then (plain 405 "這個頁面只接受 GET。", m)
    else setup_parts now a (path_parts r.path) m
