-- ===== src/Http.antt =====
-- What the handlers use of `net/http`, and the parsers of other standard packages, which are
-- parameters: `net.SplitHostPort`, `net.ParseIP` with `IsLoopback`, `mime.ParseMediaType`, the
-- decoder of `mime.WordDecoder` and `encoding/json`.
use tailclip.Base.{
  ℕ, Bool, true, false, ◌||◌, Option, none, some, List, [], ◌∷◌, ◌++◌, Bytes, bytes, length, same,
  ◌&&◌, ◌==◌, reverse, ltb, strip_prefix, strip_prefix_sound, strip_prefix-append, same_iff,
  Option-cases, ◌≡◌, ◌↔◌, ◌∙◌, ap, inl, inr, arith, if◌then◌else◌,
}
use tailclip.Clipboard.{Context}

-- Pairs of a canonical name and a value, in the order in which they were sent.
abbrev pub Header : Type 0
Header = List (Bytes × Bytes)

-- `broken`: the body ends before it was read.
pub record Request : Type 0 where
  pub method : Bytes
  pub path : Bytes
  pub host : Bytes
  pub remote_addr : Bytes
  pub header : Header
  pub body : Bytes
  pub broken : Bool
  pub ctx : Context

-- `Header.Values`.
unfoldable pub values : Bytes → Header → List Bytes
values name [] = []
values name ((n, v) ∷ h) = let rest = values name h in if same n name then v ∷ rest else rest

unfoldable pub first : List Bytes → Bytes
first [] = []
first (v ∷ vs) = v

-- `Header.Get`.
unfoldable pub get_header : Bytes → Header → Bytes
unfolding first
get_header name h = first (values name h)

-- `io.ReadAll(http.MaxBytesReader(w, r.Body, limit))`.
unfoldable pub read_body : ℕ → Request → Option Bytes
read_body limit r = if r.broken || ltb limit (length r.body) then none else some r.body

pub record Parsers : Type 0 where
  pub split_host : Bytes → Option Bytes
  pub is_loopback : Bytes → Bool
  pub media_type : Bytes → Option Bytes
  pub decode_word : Bytes → Option Bytes
  pub decode_text : Bytes → Option (Option Bytes × Bytes)
  pub is_eof : Bytes → Bool

abbrev bearer_prefix : Bytes
bearer_prefix = bytes "Bearer "

abbrev pub bearer : Bytes → Bytes
bearer token = bearer_prefix ++ token

-- The check of a bearer token that the API and the local control share; the lengths are compared
-- before the bytes.
unfoldable pub bearer_matches : Bytes → Bytes → Bool
bearer_matches header expected = elim (strip_prefix bearer_prefix header) [
  | none ↦ false
  | some provided ↦
      if ltb (length provided) (length expected) || ltb (length expected) (length provided)
      then false
      else same provided expected
]

bearer_matches_sound :
    (header expected : Bytes) → bearer_matches header expected ≡ true → header ≡ bearer expected
unfolding bearer_matches
bearer_matches_sound header expected h = elim (Option-cases (strip_prefix bearer_prefix header)) [
  | inl e ↦ ground arith
  | inr (r, e) ↦
      let is_expected : r ≡ expected = ground (arith, same_iff r expected) in
      strip_prefix_sound bearer_prefix header r e ∙ ap bearer is_expected
]

bearer_matches_complete : (expected : Bytes) → bearer_matches (bearer expected) expected ≡ true
unfolding bearer_matches
bearer_matches_complete expected =
    ground (arith, strip_prefix-append bearer_prefix expected, same_iff expected expected)

-- Exactly the header with the expected token matches.
pub bearer_matches_iff :
    (header expected : Bytes) → (bearer_matches header expected ≡ true) ↔ (header ≡ bearer expected)
bearer_matches_iff header expected = (
  bearer_matches_sound header expected,
  λ e. ap (λ h. bearer_matches h expected) e ∙ bearer_matches_complete expected,
)

abbrev is_bracket : ℕ → Bool
is_bracket c = c == b'[' || c == b']'

drop_brackets : Bytes → Bytes
drop_brackets [] = []
drop_brackets (c ∷ s) = if is_bracket c then drop_brackets s else c ∷ s

-- `strings.Trim(s, "[]")`.
unfoldable pub trim_brackets : Bytes → Bytes
unfolding drop_brackets
trim_brackets s = reverse (drop_brackets (reverse (drop_brackets s)))

-- `webuiRequestIsLocal` of internal/agent/agent.go, and `requestIsLoopback` of
-- internal/webui/dashboard_host.go: both the sender and the host that was asked for are this computer.
unfoldable pub request_is_local : Parsers → Request → Bool
request_is_local p r =
    let remote = elim (p.split_host r.remote_addr) as (λ _. Bool) [
      | none ↦ false
      | some h ↦ p.is_loopback h
    ] in
    let host = elim (p.split_host r.host) as (λ _. Bytes) [ none ↦ r.host | some h ↦ h ] in
    remote && p.is_loopback (trim_brackets host)
