-- ===== src/Clipboard/Utf16.antt =====
-- What internal/clipboard/backend_windows.go uses of Go's conversions: `[]rune(text)`, `string(runes)`
-- and the package unicode/utf16. A rune is its code point.

pub mod Laws
pub mod Valid
use tailclip.Base.{
  ℕ, zero, suc, ◌+◌, ◌-◌, ◌*◌, ◌/◌, ◌%◌, Bool, not, ◌&&◌, ◌||◌, List, [], ◌∷◌, ◌++◌, Bytes, ltb,
  leb, ◌==◌, if◌then◌else◌,
}

-- U+FFFD, which stands for what cannot be decoded.
abbrev pub replacement : ℕ
replacement = 0xfffd

abbrev pub between : ℕ → ℕ → ℕ → Bool
between lo hi c = leb lo c && leb c hi

abbrev pub is_continuation : ℕ → Bool
is_continuation = between 0x80 0xbf

abbrev two : ℕ → ℕ → ℕ
two a b = (a - 0xc0) * 64 + (b - 0x80)

abbrev three : ℕ → ℕ → ℕ → ℕ
three a b c = (a - 0xe0) * 4096 + (b - 0x80) * 64 + (c - 0x80)

abbrev four : ℕ → ℕ → ℕ → ℕ → ℕ
four a b c d = (a - 0xf0) * 262144 + (b - 0x80) * 4096 + (c - 0x80) * 64 + (d - 0x80)

abbrev pub is_pair : ℕ → ℕ → Bool
is_pair a b = between 0xc2 0xdf a && is_continuation b

-- The second byte must not make the form longer than it has to be, nor a surrogate.
abbrev pub is_triple : ℕ → ℕ → ℕ → Bool
is_triple a b c =
    between 0xe0 0xef a
    && between (if a == 0xe0 then 0xa0 else 0x80) (if a == 0xed then 0x9f else 0xbf) b
    && is_continuation c

abbrev pub is_quad : ℕ → ℕ → ℕ → ℕ → Bool
is_quad a b c d =
    between 0xf0 0xf4 a
    && between (if a == 0xf0 then 0x90 else 0x80) (if a == 0xf4 then 0x8f else 0xbf) b
    && is_continuation c
    && is_continuation d

-- The first rune of a string, and how many bytes it takes after the first.
unfoldable pub decode_rune : ℕ → Bytes → ℕ × ℕ
decode_rune a [] = if ltb a 0x80 then (a, 0) else (replacement, 0)
decode_rune a (b ∷ []) =
    if ltb a 0x80 then (a, 0) else if is_pair a b then (two a b, 1) else (replacement, 0)
decode_rune a (b ∷ c ∷ []) =
    if ltb a 0x80
    then (a, 0)
    else if is_pair a b
    then (two a b, 1)
    else if is_triple a b c
    then (three a b c, 2)
    else (replacement, 0)
decode_rune a (b ∷ c ∷ d ∷ s) =
    if ltb a 0x80
    then (a, 0)
    else if is_pair a b
    then (two a b, 1)
    else if is_triple a b c
    then (three a b c, 2)
    else if is_quad a b c d
    then (four a b c d, 3)
    else (replacement, 0)

-- The first argument counts the bytes that the last rune still takes.
unfoldable pub runes_from : ℕ → Bytes → List ℕ
runes_from k [] = []
runes_from zero (a ∷ s) = let (r, k) = decode_rune a s in r ∷ runes_from k s
runes_from (suc k) (a ∷ s) = runes_from k s

unfoldable pub runes : Bytes → List ℕ
runes = runes_from 0

abbrev pub is_surrogate : ℕ → Bool
is_surrogate = between 0xd800 0xdfff

abbrev pub is_scalar : ℕ → Bool
is_scalar r = ltb r 0xd800 || between 0xe000 0x10ffff r

unfoldable pub encode_rune : ℕ → Bytes
encode_rune r =
    if ltb r 0x80
    then r ∷ []
    else if ltb r 0x800
    then (0xc0 + r / 64) ∷ (0x80 + r % 64) ∷ []
    else if (is_scalar r && ltb 0xffff r)
    then (0xf0 + r / 262144) ∷ (0x80 + r / 4096 % 64) ∷ (0x80 + r / 64 % 64) ∷ (0x80 + r % 64) ∷ []
    else if is_scalar r
    then (0xe0 + r / 4096) ∷ (0x80 + r / 64 % 64) ∷ (0x80 + r % 64) ∷ []
    else 0xef ∷ 0xbf ∷ 0xbd ∷ []

unfoldable pub string_of : List ℕ → Bytes
string_of [] = []
string_of (r ∷ rs) = encode_rune r ++ string_of rs

-- `utf16.Encode`, for one rune.
unfoldable pub encode_unit : ℕ → List ℕ
encode_unit r =
    if (is_scalar r && ltb 0xffff r)
    then (0xd800 + (r - 0x10000) / 1024) ∷ (0xdc00 + (r - 0x10000) % 1024) ∷ []
    else if is_scalar r
    then r ∷ []
    else replacement ∷ []

unfoldable pub encode : List ℕ → List ℕ
encode [] = []
encode (r ∷ rs) = encode_unit r ++ encode rs

-- `utf16.Decode`.
unfoldable pub decode : List ℕ → List ℕ
decode [] = []
decode (u ∷ []) = (if is_surrogate u then replacement else u) ∷ []
decode (u ∷ v ∷ us) =
    let rest = decode us in
    let next = decode (v ∷ us) in
    if not (is_surrogate u)
    then u ∷ next
    else if (between 0xd800 0xdbff u && between 0xdc00 0xdfff v)
    then ((u - 0xd800) * 1024 + (v - 0xdc00) + 0x10000) ∷ rest
    else replacement ∷ next

-- What stands before the first NUL.
unfoldable pub before_nul : List ℕ → List ℕ
before_nul [] = []
before_nul (u ∷ us) = let rest = before_nul us in if u == 0 then [] else u ∷ rest
