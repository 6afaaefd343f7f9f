-- ===== src/Webui/Rendering.antt =====
-- internal/webui/webui.go: `RenderDashboard` and `setPrivateHeaders`. The QR code's picture, the time
-- in the local zone, the base64 of the picture and the version are parameters.
use tailclip.Base.{
  ℕ, Option, none, some, List, [], ◌∷◌, ◌++◌, Bytes, bytes, String, is_empty, if◌then◌else◌,
}
use tailclip.Webui.Dashboard.{DashboardData}

abbrev pub private_headers : List (String × String)
private_headers =
    ("Cache-Control", "no-store, max-age=0")
    ∷ ("Pragma", "no-cache")
    ∷ ("Referrer-Policy", "no-referrer")
    ∷ ("X-Content-Type-Options", "nosniff")
    ∷ ("X-Frame-Options", "DENY")
    ∷ (
      "Content-Security-Policy",
      "default-src 'none'; img-src data:; style-src 'unsafe-inline'; script-src 'unsafe-inline'; connect-src 'self'; base-uri 'none'; form-action 'self'; frame-ancestors 'none'",
    )
    ∷ []

pub record Page : Type 0 where
  pub contents : DashboardData
  pub qr_code : Bytes
  pub expires_at_text : Bytes
  pub agent_version : Bytes

pub record Rendering : Type 0 where
  pub qr : Bytes → Option Bytes
  pub local_time : ℕ → Bytes
  pub version : Bytes
  pub base64 : Bytes → Bytes

-- The picture, empty without an address; `none` is an error.
unfoldable pub picture : Rendering → Bytes → Option Bytes
picture r url = if is_empty url then some [] else r.qr url

-- What the template is filled with.
unfoldable pub render_dashboard : Rendering → DashboardData → Option Page
unfolding picture
render_dashboard r d = elim (picture r d.pairing_url) [
  | none ↦ none
  | some png ↦ some (record {
    contents = d;
    qr_code = bytes "data:image/png;base64," ++ r.base64 png;
    expires_at_text = r.local_time d.expires_at;
    agent_version = r.version;
  })
]
