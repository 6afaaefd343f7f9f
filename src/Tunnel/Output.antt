-- ===== src/Tunnel/Output.antt =====
-- internal/tunnel/process.go: `urlOutput`, which looks for the tunnel's address in what the program
-- prints, and the pattern
-- `https://[a-z0-9]+(?:-[a-z0-9]+)*\.trycloudflare\.com\b`. No label of the pattern holds a dot, so at
-- each place it can match in one way only.
pub mod Found
use tailclip.Base.{
  ℕ, zero, suc, ◌+◌, ◌-◌, ◌≤◌, ◌<◌, ◌≡◌, ◌≢◌, refl, sym, ap, ◌∙◌, subst, Bool, true, false, not,
  ◌&&◌, ◌||◌, Option, none, some, List, [], ◌∷◌, ◌++◌, Bytes, bytes, arith, length, length-append,
  drop, strip_prefix, ltb, leb, ◌==◌, if◌then◌else◌, is_none,
}

abbrev between : ℕ → ℕ → ℕ → Bool
between lo hi c = leb lo c && leb c hi

unfoldable pub in_label : ℕ → Bool
in_label c = between b'a' b'z' c || between b'0' b'9' c

-- `\w`, at whose end `\b` matches.
unfoldable pub is_word : ℕ → Bool
is_word c = between b'a' b'z' c || between b'A' b'Z' c || between b'0' b'9' c || c == b'_'

-- `[a-z0-9]+(?:-[a-z0-9]+)*` in front of a dot, with the string from the dot on. A letter or a digit
-- must come next where `starting` is true.
unfoldable pub label : (starting : Bool) → Bytes → Option (Bytes × Bytes)
label starting [] = none
label starting (c ∷ s) =
    let next = label (c == b'-') s in
    if (in_label c || (c == b'-' && not starting))
    then elim next [ none ↦ none | some r ↦ some (c ∷ r.0, r.1) ]
    else if (c == b'.' && not starting)
    then some ([], c ∷ s)
    else none

abbrev pub scheme : Bytes
scheme = bytes "https://"

abbrev pub domain : Bytes
domain = bytes ".trycloudflare.com"

unfoldable pub ends_word : Bytes → Bool
ends_word [] = true
ends_word (c ∷ s) = not (is_word c)

-- The match that starts here.
unfoldable pub match_here : Bytes → Option Bytes
unfolding ends_word
match_here s = elim (strip_prefix scheme s) [
  | none ↦ none
  | some t ↦ elim (label true t) [
    | none ↦ none
    | some (l, u) ↦ elim (strip_prefix domain u) [
      | none ↦ none
      | some v ↦ if ends_word v then some (scheme ++ (l ++ domain)) else none
    ]
  ]
]

-- `urlPattern.FindString`: the first place that matches; `none` is the empty string.
unfoldable pub find_string : Bytes → Option Bytes
find_string [] = none
find_string (c ∷ s) =
    let rest = find_string s in elim (match_here (c ∷ s)) [ none ↦ rest | some u ↦ some u ]

-- `found` has what was sent on the channel, the last first.
pub record UrlOutput : Type 0 where
  pub buffer : Bytes
  pub sent : Bool
  pub found : List Bytes

abbrev pub empty_output : UrlOutput
empty_output = record { buffer = []; sent = false; found = [] }

-- `if len(w.buffer) > 8192 { w.buffer = w.buffer[len(w.buffer)-4096:] }`.
unfoldable pub trimmed : Bytes → Bytes
trimmed buffer = if ltb 8192 (length buffer) then drop (length buffer - 4096) buffer else buffer

unfoldable pub write : UrlOutput → Bytes → UrlOutput
write w b =
    let buffer = w.buffer ++ b in
    if w.sent then w else elim (find_string buffer) [
      | some u ↦ record { buffer = []; sent = true; found = u ∷ w.found }
      | none ↦ record { buffer = trimmed buffer; sent = false; found = w.found }
    ]

-- The writes of a run, in their order.
unfoldable pub write_all : UrlOutput → List Bytes → UrlOutput
write_all w [] = w
write_all w (b ∷ bs) = write_all (write w b) bs
