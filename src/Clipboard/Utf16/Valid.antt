-- ===== src/Clipboard/Utf16/Valid.antt =====
-- A valid string is given back by the conversion to runes and from them.
use tailclip.Base.{
  ℕ, zero, suc, ◌≡◌, refl, ap, ap₂, length, ◌≤◌, ◌∙◌, Bool, true, false, ◌||◌, subst, [], ◌∷◌, ◌++◌,
  arith, Bytes, valid_utf8, utf8_from, lead_count, lead_low, lead_high, ltb, and_true, Bool-cases,
  inl, inr,
}
use tailclip.Clipboard.Utf16.{
  decode_rune, runes_from, runes, encode_rune, string_of, between, is_continuation, is_pair,
  is_triple, is_quad, two, three, four,
}

encode_rune-pair : (a b : ℕ) → is_pair a b ≡ true → encode_rune (two a b) ≡ a ∷ b ∷ []
unfolding encode_rune
encode_rune-pair a b h = ground arith

encode_rune-triple :
    (a b c : ℕ) → is_triple a b c ≡ true → encode_rune (three a b c) ≡ a ∷ b ∷ c ∷ []
unfolding encode_rune
encode_rune-triple a b c h = ground arith

encode_rune-quad :
    (a b c d : ℕ) → is_quad a b c d ≡ true → encode_rune (four a b c d) ≡ a ∷ b ∷ c ∷ d ∷ []
unfolding encode_rune
encode_rune-quad a b c d h = ground arith

-- How a valid string starts.
data Start (a : ℕ) : Bytes → Type 0 where
  single : {s : Bytes} → ltb a 0x80 ≡ true → utf8_from 0 0x80 0xbf s ≡ true → Start a s
  pair : {b : ℕ} {s : Bytes} → is_pair a b ≡ true → utf8_from 0 0x80 0xbf s ≡ true → Start a (b ∷ s)
  triple :
      {b c : ℕ} {s : Bytes}
      → is_triple a b c ≡ true
      → utf8_from 0 0x80 0xbf s ≡ true
      → Start a (b ∷ c ∷ s)
  quad :
      {b c d : ℕ} {s : Bytes}
      → is_quad a b c d ≡ true
      → utf8_from 0 0x80 0xbf s ≡ true
      → Start a (b ∷ c ∷ d ∷ s)

abbrev is_lead : ℕ → Bool
is_lead a = between 0xc2 0xf4 a

-- The second byte lies between the bounds that the lead byte sets.
abbrev second : ℕ → ℕ → Bool
second a b = between (lead_low a) (lead_high a) b

second-is_triple :
    (a b c : ℕ)
    → is_lead a ≡ true
    → ltb a 0xe0 ≡ false
    → ltb a 0xf0 ≡ true
    → second a b ≡ true
    → is_continuation c ≡ true
    → is_triple a b c ≡ true
unfolding lead_low lead_high
second-is_triple a b c l p q h k = ground arith

second-is_quad :
    (a b c d : ℕ)
    → is_lead a ≡ true
    → ltb a 0xf0 ≡ false
    → second a b ≡ true
    → is_continuation c ≡ true
    → is_continuation d ≡ true
    → is_quad a b c d ≡ true
unfolding lead_low lead_high
second-is_quad a b c d l p h k m = ground arith

module _ (a lo hi : ℕ) where
  -- What the rest must satisfy behind a lead byte.
  behind :
      (n : ℕ) (s : Bytes)
      → ltb a 0x80 ≡ false
      → lead_count a ≡ n
      → utf8_from 0 lo hi (a ∷ s) ≡ true
      → (is_lead a ≡ true) × (utf8_from n (lead_low a) (lead_high a) s ≡ true)
  unfolding utf8_from
  behind n s p e h =
      let (l, k) = and_true {a = ltb a 0x80 || is_lead a} h in
      (ground arith, subst (λ m. utf8_from m (lead_low a) (lead_high a) s ≡ true) e k)

  starts_short : (s : Bytes) → ltb a 0x80 ≡ true → utf8_from 0 lo hi (a ∷ s) ≡ true → Start a s
  unfolding utf8_from lead_count lead_low lead_high
  starts_short s p h = single p (ground arith)

  starts_pair :
      (s : Bytes)
      → ltb a 0xe0 ≡ true
      → (is_lead a ≡ true) × (utf8_from 1 (lead_low a) (lead_high a) s ≡ true)
      → Start a s
  unfolding utf8_from lead_low lead_high
  starts_pair [] q (l, h) = cc
  starts_pair (b ∷ s) q (l, h) =
      let (x, rest) = and_true {a = second a b} h in pair (ground arith) rest

  starts_triple :
      (s : Bytes)
      → ltb a 0xe0 ≡ false
      → ltb a 0xf0 ≡ true
      → (is_lead a ≡ true) × (utf8_from 2 (lead_low a) (lead_high a) s ≡ true)
      → Start a s
  unfolding utf8_from
  starts_triple [] p q (l, h) = cc
  starts_triple (b ∷ []) p q (l, h) = ground arith
  starts_triple (b ∷ c ∷ s) p q (l, h) =
      let (x, more) = and_true {a = second a b} h in
      let (y, rest) = and_true {a = is_continuation c} more in
      triple (second-is_triple a b c l p q x y) rest

  starts_quad :
      (s : Bytes)
      → ltb a 0xf0 ≡ false
      → (is_lead a ≡ true) × (utf8_from 3 (lead_low a) (lead_high a) s ≡ true)
      → Start a s
  unfolding utf8_from
  starts_quad [] q (l, h) = cc
  starts_quad (b ∷ []) q (l, h) = ground arith
  starts_quad (b ∷ c ∷ []) q (l, h) = ground arith
  starts_quad (b ∷ c ∷ d ∷ s) q (l, h) =
      let (x, more) = and_true {a = second a b} h in
      let (y, rest) = and_true {a = is_continuation c} more in
      let (z, end) = and_true {a = is_continuation d} rest in
      quad (second-is_quad a b c d l q x y z) end

  starts : (s : Bytes) → utf8_from 0 lo hi (a ∷ s) ≡ true → Start a s
  unfolding lead_count
  starts s h = elim (Bool-cases (ltb a 0x80)) [
    | inl p ↦ starts_short s p h
    | inr p ↦ elim (Bool-cases (ltb a 0xe0)) [
      | inl q ↦ starts_pair s q (behind 1 s p (ground arith) h)
      | inr q ↦ elim (Bool-cases (ltb a 0xf0)) [
        | inl r ↦ starts_triple s q r (behind 2 s p (ground arith) h)
        | inr r ↦ starts_quad s r (behind 3 s p (ground arith) h)
      ]
    ]
  ]

decode_rune-single : (a : ℕ) (s : Bytes) → ltb a 0x80 ≡ true → decode_rune a s ≡ (a, 0)
unfolding decode_rune
decode_rune-single a [] h = ground arith
decode_rune-single a (b ∷ []) h = ground arith
decode_rune-single a (b ∷ c ∷ []) h = ground arith
decode_rune-single a (b ∷ c ∷ d ∷ s) h = ground arith

decode_rune-pair : (a b : ℕ) (s : Bytes) → is_pair a b ≡ true → decode_rune a (b ∷ s) ≡ (two a b, 1)
unfolding decode_rune
decode_rune-pair a b [] h = ground arith
decode_rune-pair a b (c ∷ []) h = ground arith
decode_rune-pair a b (c ∷ d ∷ s) h = ground arith

decode_rune-triple :
    (a b c : ℕ) (s : Bytes) → is_triple a b c ≡ true → decode_rune a (b ∷ c ∷ s) ≡ (three a b c, 2)
unfolding decode_rune
decode_rune-triple a b c [] h = ground arith
decode_rune-triple a b c (d ∷ s) h = ground arith

decode_rune-quad :
    (a b c d : ℕ) (s : Bytes)
    → is_quad a b c d ≡ true
    → decode_rune a (b ∷ c ∷ d ∷ s) ≡ (four a b c d, 3)
unfolding decode_rune
decode_rune-quad a b c d s h = ground arith

-- The runes behind the first, once its bytes are known.
runes_from-decode_rune :
    (a r k : ℕ) (s : Bytes)
    → decode_rune a s ≡ (r, k)
    → string_of (runes_from 0 (a ∷ s)) ≡ encode_rune r ++ string_of (runes_from k s)
unfolding runes_from string_of
runes_from-decode_rune a r k s e = ap (λ d. encode_rune d.0 ++ string_of (runes_from d.1 s)) e

encode_rune-single : (a : ℕ) → ltb a 0x80 ≡ true → encode_rune a ≡ a ∷ []
unfolding encode_rune
encode_rune-single a h = ground arith

abbrev Restored : Bytes → Type 0
Restored s = string_of (runes_from 0 s) ≡ s

Restored-Start :
    (a : ℕ) (s : Bytes)
    → ((t : Bytes) → length t ≤ length s → utf8_from 0 0x80 0xbf t ≡ true → Restored t)
    → Start a s
    → Restored (a ∷ s)
unfolding runes_from
Restored-Start a s ih (single p v) =
    runes_from-decode_rune a a 0 s (decode_rune-single a s p)
    ∙ ap₂ ◌++◌ (encode_rune-single a p) (ih s (omega arith) v)
Restored-Start a (b ∷ s) ih (pair p v) =
    runes_from-decode_rune a (two a b) 1 (b ∷ s) (decode_rune-pair a b s p)
    ∙ ap₂ ◌++◌ (encode_rune-pair a b p) (ih s (omega arith) v)
Restored-Start a (b ∷ c ∷ s) ih (triple p v) =
    runes_from-decode_rune a (three a b c) 2 (b ∷ c ∷ s) (decode_rune-triple a b c s p)
    ∙ ap₂ ◌++◌ (encode_rune-triple a b c p) (ih s (omega arith) v)
Restored-Start a (b ∷ c ∷ d ∷ s) ih (quad p v) =
    runes_from-decode_rune a (four a b c d) 3 (b ∷ c ∷ d ∷ s) (decode_rune-quad a b c d s p)
    ∙ ap₂ ◌++◌ (encode_rune-quad a b c d p) (ih s (omega arith) v)

-- By recursion on a bound for the length, since a rune takes several bytes.
Restored-below : (n lo hi : ℕ) (s : Bytes) → length s ≤ n → utf8_from 0 lo hi s ≡ true → Restored s
unfolding runes_from string_of
Restored-below n lo hi [] b h = refl
Restored-below zero lo hi (a ∷ s) b h = ground arith
Restored-below (suc n) lo hi (a ∷ s) b h =
    Restored-Start a s (λ t c. Restored-below n 0x80 0xbf t (omega arith)) (starts a lo hi s h)

pub string_of-runes : (t : Bytes) → valid_utf8 t ≡ true → string_of (runes t) ≡ t
unfolding valid_utf8 runes
string_of-runes t = Restored-below (length t) 0 0 t (omega arith)
