-- ===== src/Clipboard/Utf16/Laws.antt =====
-- Decoding undoes encoding, for UTF-16 and for UTF-8.
use tailclip.Base.{
  ℕ, zero, suc, ◌≡◌, refl, ap, ◌∙◌, Bool, true, ◌&&◌, List, [], ◌∷◌, ◌++◌, arith, Bytes, and_true,
  ◌==◌, if◌then◌else◌,
}
use tailclip.Clipboard.Utf16.{
  decode_rune, runes_from, runes, encode_unit, encode, decode, before_nul, is_scalar,
}

unfoldable pub all_scalar : List ℕ → Bool
all_scalar [] = true
all_scalar (r ∷ rs) = is_scalar r && all_scalar rs

decode_rune-is_scalar : (a : ℕ) (s : Bytes) → is_scalar (decode_rune a s).0 ≡ true
unfolding decode_rune
decode_rune-is_scalar a [] = ground arith
decode_rune-is_scalar a (b ∷ []) = ground arith
decode_rune-is_scalar a (b ∷ c ∷ []) = ground arith
decode_rune-is_scalar a (b ∷ c ∷ d ∷ s) = ground arith

runes_from-all_scalar : (k : ℕ) (s : Bytes) → all_scalar (runes_from k s) ≡ true
unfolding runes_from all_scalar
runes_from-all_scalar k [] = refl
runes_from-all_scalar zero (a ∷ s) =
    ground (arith, decode_rune-is_scalar a s, runes_from-all_scalar (decode_rune a s).1 s)
runes_from-all_scalar (suc k) (a ∷ s) = runes_from-all_scalar k s

decode-encode_unit :
    (r : ℕ) (us : List ℕ) → is_scalar r ≡ true → decode (encode_unit r ++ us) ≡ r ∷ decode us
unfolding decode encode_unit
decode-encode_unit r [] h = ground arith
decode-encode_unit r (v ∷ us) h = ground arith

pub decode-encode : (rs : List ℕ) → all_scalar rs ≡ true → decode (encode rs) ≡ rs
unfolding all_scalar encode decode
decode-encode [] h = refl
decode-encode (r ∷ rs) h =
    decode-encode_unit r (encode rs) (and_true h).0 ∙ ap (◌∷◌ r) (decode-encode rs (and_true h).1)

before_nul-encode_unit :
    (r : ℕ) (us : List ℕ)
    → before_nul (encode_unit r ++ us) ≡ (if r == 0 then [] else encode_unit r ++ before_nul us)
unfolding before_nul encode_unit
before_nul-encode_unit r us = ground arith

pub before_nul-encode : (rs : List ℕ) → before_nul (encode rs) ≡ encode (before_nul rs)
unfolding encode before_nul
before_nul-encode [] = refl
before_nul-encode (r ∷ rs) =
    before_nul-encode_unit r (encode rs) ∙ ground (arith, before_nul-encode rs, encode)

before_nul-all_scalar : (rs : List ℕ) → all_scalar rs ≡ true → all_scalar (before_nul rs) ≡ true
unfolding all_scalar before_nul
before_nul-all_scalar [] h = refl
before_nul-all_scalar (r ∷ rs) h =
    let (p, q) = and_true {a = is_scalar r} h in
    ground (arith, all_scalar, before_nul-all_scalar rs q)

-- What a reader of the clipboard decodes is the text before its first NUL.
pub decode-before_nul : (t : Bytes) → decode (before_nul (encode (runes t))) ≡ before_nul (runes t)
unfolding runes
decode-before_nul t =
    ap decode (before_nul-encode (runes t))
    ∙ decode-encode (before_nul (runes t))
        (before_nul-all_scalar (runes t) (runes_from-all_scalar 0 t))
