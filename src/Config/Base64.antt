-- ===== src/Config/Base64.antt =====
-- `base64.RawURLEncoding` of Go's standard library, which the tokens of internal/config/config.go
-- and the nonces of internal/pairing/manager.go are written in.
use tailclip.Base.{
  ℕ, ◌+◌, ◌-◌, ◌*◌, ◌/◌, ◌%◌, ◌<◌, ◌≡◌, refl, false, ◌&&◌, ◌||◌, Option, none, some, [], ◌∷◌, arith,
  Bytes, is_empty, contains_byte, leb, ltb, ◌==◌, if◌then◌else◌,
}

unfoldable pub encode_digit : ℕ → ℕ
encode_digit d =
    if ltb d 26
    then b'A' + d
    else if ltb d 52
    then 71 + d
    else if ltb d 62
    then d - 4
    else if d == 62
    then b'-'
    else b'_'

unfoldable pub decode_digit : ℕ → Option ℕ
decode_digit c =
    if leb b'A' c && leb c b'Z'
    then some (c - b'A')
    else if leb b'a' c && leb c b'z'
    then some (c - 71)
    else if leb b'0' c && leb c b'9'
    then some (c + 4)
    else if c == b'-'
    then some 62
    else if c == b'_'
    then some 63
    else none

unfoldable pub encode : Bytes → Bytes
encode [] = []
encode (a ∷ []) = encode_digit (a / 4) ∷ encode_digit (a % 4 * 16) ∷ []
encode (a ∷ b ∷ []) =
    encode_digit (a / 4) ∷ encode_digit (a % 4 * 16 + b / 16) ∷ encode_digit (b % 16 * 4) ∷ []
encode (a ∷ b ∷ c ∷ s) =
    encode_digit (a / 4)
    ∷ encode_digit (a % 4 * 16 + b / 16)
    ∷ encode_digit (b % 16 * 4 + c / 64)
    ∷ encode_digit (c % 64)
    ∷ encode s

-- The decoder passes over line breaks.
unfoldable pub skip_breaks : Bytes → Bytes
skip_breaks [] = []
skip_breaks (c ∷ s) =
    let rest = skip_breaks s in if c == b'\n' || c == b'\r' then rest else c ∷ rest

infixl 5 ◌>>=◌
abbrev ◌>>=◌ : {A B : Type 0} → Option A → (A → Option B) → Option B
none >>= f = none
some a >>= f = f a

-- The bits of a digit behind the last whole byte are not looked at.
decode_quanta : Bytes → Option Bytes
decode_quanta [] = some []
decode_quanta (p ∷ []) = none
decode_quanta (p ∷ q ∷ []) = do x ← decode_digit p; y ← decode_digit q; some ((x * 4 + y / 16) ∷ [])
decode_quanta (p ∷ q ∷ r ∷ []) = do
  x ← decode_digit p
  y ← decode_digit q
  z ← decode_digit r
  some ((x * 4 + y / 16) ∷ (y % 16 * 16 + z / 4) ∷ [])
decode_quanta (p ∷ q ∷ r ∷ t ∷ s) = do
  x ← decode_digit p
  y ← decode_digit q
  z ← decode_digit r
  w ← decode_digit t
  rest ← decode_quanta s
  some ((x * 4 + y / 16) ∷ (y % 16 * 16 + z / 4) ∷ (z % 4 * 64 + w) ∷ rest)

unfoldable pub decode : Bytes → Option Bytes
unfolding decode_quanta skip_breaks
decode s = decode_quanta (skip_breaks s)

abbrev pub AreBytes : Bytes → Type 0
AreBytes [] = Unit {0}
AreBytes (c ∷ s) = (c < 256) × AreBytes s

decode_digit-encode_digit : (d : ℕ) → d < 64 → decode_digit (encode_digit d) ≡ some d
unfolding decode_digit encode_digit
decode_digit-encode_digit d h = ground arith

encode_digit-not_break :
    (d : ℕ) → d < 64 → ((encode_digit d == b'\n') || (encode_digit d == b'\r')) ≡ false
unfolding encode_digit
encode_digit-not_break d h = ground arith

skip_breaks-digit :
    (d : ℕ) (s : Bytes) → d < 64 → skip_breaks (encode_digit d ∷ s) ≡ encode_digit d ∷ skip_breaks s
unfolding skip_breaks
skip_breaks-digit d s h = rw (encode_digit-not_break d h)

-- Four digits hold three bytes.
quantum :
    (a b c : ℕ)
    → a < 256
    → b < 256
    → c < 256
    → let x = a / 4 in
      let y = a % 4 * 16 + b / 16 in
      let z = b % 16 * 4 + c / 64 in
      let w = c % 64 in
      (x < 64)
      × (y < 64)
      × (z < 64)
      × (w < 64)
      × (x * 4 + y / 16 ≡ a)
      × (y % 16 * 16 + z / 4 ≡ b)
      × (z % 4 * 64 + w ≡ c)
quantum a b c p q r = omega arith

skip_breaks-encode : (s : Bytes) → AreBytes s → skip_breaks (encode s) ≡ encode s
unfolding encode
skip_breaks-encode [] h = unfold skip_breaks in refl
skip_breaks-encode (a ∷ []) h =
    let p = h.0 in
    rw (skip_breaks-digit (a / 4) _ (omega arith), skip_breaks-digit (a % 4 * 16) _ (omega arith))
      (unfold skip_breaks in refl)
skip_breaks-encode (a ∷ b ∷ []) h =
    let p = h.0 in
    let q = h.1.0 in
    rw
      (
        skip_breaks-digit (a / 4) _ (omega arith),
        skip_breaks-digit (a % 4 * 16 + b / 16) _ (omega arith),
        skip_breaks-digit (b % 16 * 4) _ (omega arith),
      )
      (unfold skip_breaks in refl)
skip_breaks-encode (a ∷ b ∷ c ∷ s) h =
    let (x, y, z, w, _, _, _) = quantum a b c h.0 h.1.0 h.1.1.0 in
    rw (
      skip_breaks-digit (a / 4) _ x,
      skip_breaks-digit (a % 4 * 16 + b / 16) _ y,
      skip_breaks-digit (b % 16 * 4 + c / 64) _ z,
      skip_breaks-digit (c % 64) _ w,
      skip_breaks-encode s h.1.1.1,
    )

decode_quanta-encode : (s : Bytes) → AreBytes s → decode_quanta (encode s) ≡ some s
unfolding encode decode_quanta
decode_quanta-encode [] h = refl
decode_quanta-encode (a ∷ []) h =
    ground (arith, decode_digit-encode_digit (a / 4), decode_digit-encode_digit (a % 4 * 16))
decode_quanta-encode (a ∷ b ∷ []) h = ground (
  arith,
  decode_digit-encode_digit (a / 4),
  decode_digit-encode_digit (a % 4 * 16 + b / 16),
  decode_digit-encode_digit (b % 16 * 4),
)
decode_quanta-encode (a ∷ b ∷ c ∷ s) h = ground (
  arith,
  decode_digit-encode_digit (a / 4),
  decode_digit-encode_digit (a % 4 * 16 + b / 16),
  decode_digit-encode_digit (b % 16 * 4 + c / 64),
  decode_digit-encode_digit (c % 64),
  decode_quanta-encode s h.1.1.1,
)

-- What is encoded is read back.
pub decode-encode : (s : Bytes) → AreBytes s → decode (encode s) ≡ some s
decode-encode s h = unfold decode in rw (skip_breaks-encode s h) (decode_quanta-encode s h)

pub encode-not_empty : (s : Bytes) → is_empty s ≡ false → is_empty (encode s) ≡ false
unfolding encode
encode-not_empty [] h = h
encode-not_empty (a ∷ []) h = refl
encode-not_empty (a ∷ b ∷ []) h = refl
encode-not_empty (a ∷ b ∷ c ∷ s) h = refl

encode_digit-ne-slash : (d : ℕ) → d < 64 → (encode_digit d == b'/') ≡ false
unfolding encode_digit
encode_digit-ne-slash d h = ground arith

-- What is encoded has no slash, so it can stand in a path.
pub encode-no_slash : (s : Bytes) → AreBytes s → contains_byte b'/' (encode s) ≡ false
unfolding encode contains_byte
encode-no_slash [] h = refl
encode-no_slash (a ∷ []) (p, h) = ground (
  arith,
  encode_digit-ne-slash (a / 4) (omega arith),
  encode_digit-ne-slash (a % 4 * 16) (omega arith),
)
encode-no_slash (a ∷ b ∷ []) (p, (q, h)) = ground (
  arith,
  encode_digit-ne-slash (a / 4) (omega arith),
  encode_digit-ne-slash (a % 4 * 16 + b / 16) (omega arith),
  encode_digit-ne-slash (b % 16 * 4) (omega arith),
)
encode-no_slash (a ∷ b ∷ c ∷ s) (p, (q, (r, h))) = ground (
  arith,
  encode_digit-ne-slash (a / 4) (omega arith),
  encode_digit-ne-slash (a % 4 * 16 + b / 16) (omega arith),
  encode_digit-ne-slash (b % 16 * 4 + c / 64) (omega arith),
  encode_digit-ne-slash (c % 64) (omega arith),
  encode-no_slash s h,
)
