-- ===== src/Base/Unicode.antt =====
-- `strings.TrimSpace` and `utf8.ValidString` on bytes.
use Prim.Native.Nat.{ℕ, zero, suc}
use mathlib.Core.Bool.{Bool, true, false, ◌&&◌, ◌||◌}
use mathlib.Core.List.{[], ◌∷◌, reverse}
use tailclip.Base.Tests.{ltb, leb, ◌==◌, if◌then◌else◌}
use tailclip.Base.Strings.{Bytes, length, drop}

abbrev within : ℕ → ℕ → ℕ → Bool
within lo hi c = leb lo c && leb c hi

abbrev is_space_1 : ℕ → Bool
is_space_1 a = within 9 13 a || a == 32

-- U+0085 and U+00A0.
abbrev is_space_2 : ℕ → ℕ → Bool
is_space_2 a b = a == 0xc2 && (b == 0x85 || b == 0xa0)

-- U+1680, U+2000 to U+200A, U+2028, U+2029, U+202F, U+205F and U+3000.
abbrev is_space_3 : ℕ → ℕ → ℕ → Bool
is_space_3 a b c =
    (a == 0xe1 && b == 0x9a && c == 0x80)
    || (a == 0xe2 && b == 0x80 && (within 0x80 0x8a c || c == 0xa8 || c == 0xa9 || c == 0xaf))
    || (a == 0xe2 && b == 0x81 && c == 0x9f)
    || (a == 0xe3 && b == 0x80 && c == 0x80)

-- How many bytes the white space at the start of the string takes; 0 if there is none.
space_len : Bytes → ℕ
space_len [] = 0
space_len (a ∷ []) = if is_space_1 a then 1 else 0
space_len (a ∷ b ∷ []) = if is_space_1 a then 1 else if is_space_2 a b then 2 else 0
space_len (a ∷ b ∷ c ∷ s) =
    if is_space_1 a then 1 else if is_space_2 a b then 2 else if is_space_3 a b c then 3 else 0

-- The same for a string that is read from its end.
space_len_back : Bytes → ℕ
space_len_back [] = 0
space_len_back (a ∷ []) = if is_space_1 a then 1 else 0
space_len_back (b ∷ a ∷ []) = if is_space_1 b then 1 else if is_space_2 a b then 2 else 0
space_len_back (c ∷ b ∷ a ∷ s) =
    if is_space_1 c then 1 else if is_space_2 b c then 2 else if is_space_3 a b c then 3 else 0

-- Each round drops at least one byte, so the length is fuel enough.
trim_by : (Bytes → ℕ) → ℕ → Bytes → Bytes
trim_by width zero s = s
trim_by width (suc n) s =
    let rest = trim_by width n (drop (width s) s) in if width s == 0 then s else rest

unfoldable pub trim_space : Bytes → Bytes
unfolding space_len space_len_back trim_by
trim_space s =
    let t = trim_by space_len (length s) s in
    reverse (trim_by space_len_back (length t) (reverse t))

-- What may follow a lead byte: how many bytes, and the range of the first of them.
unfoldable pub lead_count : ℕ → ℕ
lead_count c = if ltb c 0x80 then 0 else if ltb c 0xe0 then 1 else if ltb c 0xf0 then 2 else 3

unfoldable pub lead_low : ℕ → ℕ
lead_low c = if c == 0xe0 then 0xa0 else if c == 0xf0 then 0x90 else 0x80

unfoldable pub lead_high : ℕ → ℕ
lead_high c = if c == 0xed then 0x9f else if c == 0xf4 then 0x8f else 0xbf

-- `n` bytes of the current rune are still to come, the next of them between `lo` and `hi`.
unfoldable pub utf8_from : ℕ → ℕ → ℕ → Bytes → Bool
unfolding lead_count lead_low lead_high
utf8_from zero lo hi [] = true
utf8_from (suc n) lo hi [] = false
utf8_from zero lo hi (c ∷ s) =
    (ltb c 0x80 || within 0xc2 0xf4 c) && utf8_from (lead_count c) (lead_low c) (lead_high c) s
utf8_from (suc n) lo hi (c ∷ s) = within lo hi c && utf8_from n 0x80 0xbf s

unfoldable pub valid_utf8 : Bytes → Bool
unfolding utf8_from
valid_utf8 = utf8_from 0 0 0
