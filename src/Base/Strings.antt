-- ===== src/Base/Strings.antt =====
-- Go's strings, as lists of bytes, and what the code uses of the package `strings`.
use Prim.Native.Char.{code}
use Prim.Native.Nat.{◌≤◌, ℕ, zero, suc, ◌+◌}
use Prim.Native.String.{String}
use mathlib.Core.Path.{◌≡◌, refl, ap, ap₂, ◌∙◌, sym}
use mathlib.Core.Logic.{◌↔◌}
use mathlib.Core.Bool.{Bool, true, false, ◌&&◌, ◌||◌}
use mathlib.Core.Option.{Option, none, some}
use mathlib.Core.List.{List, [], ◌∷◌, ◌++◌, map, reverse, reverse-append, reverse-reverse}
use native.Mathlib.Omega.{arith}
use tailclip.Base.Tests.{leb, ◌==◌, if◌then◌else◌, and_true, ==_iff, is_some}

abbrev pub Bytes : Type 0
Bytes = List ℕ

-- The bytes of an ASCII literal.
abbrev pub bytes : String → Bytes
bytes String.[] = []
bytes (String.◌∷◌ c s) = code c ∷ bytes s

module _ {ℓ} {A : Type ℓ} where
  abbrev pub length : List A → ℕ
  length [] = 0
  length (x ∷ xs) = suc (length xs)

  abbrev pub is_empty : List A → Bool
  is_empty [] = true
  is_empty (x ∷ xs) = false

  abbrev pub take : ℕ → List A → List A
  take zero xs = []
  take (suc n) [] = []
  take (suc n) (x ∷ xs) = x ∷ take n xs

  abbrev pub drop : ℕ → List A → List A
  drop zero xs = xs
  drop (suc n) [] = []
  drop (suc n) (x ∷ xs) = drop n xs

  pub take_short : (n : ℕ) (xs : List A) → length xs ≤ n → take n xs ≡ xs
  take_short zero [] h = refl
  take_short zero (x ∷ xs) h = absurd (omega arith)
  take_short (suc n) [] h = refl
  take_short (suc n) (x ∷ xs) h = ap (λ ys. x ∷ ys) (take_short n xs (omega arith))

  pub length-append : (xs ys : List A) → length (xs ++ ys) ≡ length xs + length ys
  length-append [] ys = omega arith
  length-append (x ∷ xs) ys = omega (arith, length-append xs ys)

  pub is_empty_iff : (xs : List A) → (is_empty xs ≡ true) ↔ (xs ≡ [])
  is_empty_iff [] = ((λ _. refl), λ _. refl)
  is_empty_iff (x ∷ xs) = ((λ h. cc), λ h. cc)

-- Equality of two strings.
unfoldable pub same : Bytes → Bytes → Bool
same [] [] = true
same [] (y ∷ ys) = false
same (x ∷ xs) [] = false
same (x ∷ xs) (y ∷ ys) = (x == y) && same xs ys

same_sound : (a b : Bytes) → same a b ≡ true → a ≡ b
unfolding same
same_sound [] [] h = refl
same_sound [] (y ∷ ys) h = cc
same_sound (x ∷ xs) [] h = cc
same_sound (x ∷ xs) (y ∷ ys) h =
    let (p, q) = and_true h in ap₂ ◌∷◌ ((==_iff x y).0 p) (same_sound xs ys q)

pub same_refl : (a : Bytes) → same a a ≡ true
unfolding same
same_refl [] = refl
same_refl (x ∷ xs) = ground (arith, same_refl xs)

pub same_iff : (a b : Bytes) → (same a b ≡ true) ↔ (a ≡ b)
same_iff a b = (same_sound a b, λ e. ap (same a) (sym e) ∙ same_refl a)

-- What is left of a string behind a prefix.
unfoldable pub strip_prefix : Bytes → Bytes → Option Bytes
strip_prefix [] s = some s
strip_prefix (p ∷ ps) [] = none
strip_prefix (p ∷ ps) (c ∷ s) = let rest = strip_prefix ps s in if p == c then rest else none

pub strip_prefix-append : (p s : Bytes) → strip_prefix p (p ++ s) ≡ some s
unfolding strip_prefix
strip_prefix-append [] s = refl
strip_prefix-append (c ∷ p) s = ground (arith, strip_prefix-append p s)

pub strip_prefix_sound : (p s r : Bytes) → strip_prefix p s ≡ some r → s ≡ p ++ r
unfolding strip_prefix
strip_prefix_sound [] s r h = ground arith
strip_prefix_sound (p ∷ ps) [] r h = cc
strip_prefix_sound (p ∷ ps) (c ∷ s) r h = ground (arith, strip_prefix_sound ps s r)

abbrev pub has_prefix : Bytes → Bytes → Bool
has_prefix s p = is_some (strip_prefix p s)

unfoldable pub trim_prefix : Bytes → Bytes → Bytes
trim_prefix s p = elim (strip_prefix p s) [ none ↦ s | some r ↦ r ]

abbrev pub has_suffix : Bytes → Bytes → Bool
has_suffix s p = is_some (strip_prefix (reverse p) (reverse s))

unfoldable pub trim_suffix : Bytes → Bytes → Bytes
trim_suffix s p = elim (strip_prefix (reverse p) (reverse s)) [ none ↦ s | some r ↦ reverse r ]

pub has_suffix-append : (s p : Bytes) → has_suffix (s ++ p) p ≡ true
has_suffix-append s p = rw (reverse-append s p, strip_prefix-append (reverse p) (reverse s))

pub trim_suffix-append : (s p : Bytes) → trim_suffix (s ++ p) p ≡ s
unfolding trim_suffix
trim_suffix-append s p =
    rw (reverse-append s p, strip_prefix-append (reverse p) (reverse s), trim_suffix)
      (reverse-reverse s)

-- `strings.IndexByte(s, b) >= 0`.
unfoldable pub contains_byte : ℕ → Bytes → Bool
contains_byte b [] = false
contains_byte b (c ∷ s) = (c == b) || contains_byte b s

-- `strings.Contains(s, p)`.
unfoldable pub contains : Bytes → Bytes → Bool
contains [] p = is_empty p
contains (c ∷ s) p = has_prefix (c ∷ s) p || contains s p

-- `strings.ContainsAny` over ASCII characters.
unfoldable pub contains_any : Bytes → Bytes → Bool
unfolding contains_byte
contains_any s [] = false
contains_any s (b ∷ bs) = contains_byte b s || contains_any s bs

-- `strings.ToLower`, on the ASCII letters; the code compares the result with ASCII text only.
unfoldable pub to_lower : Bytes → Bytes
to_lower = map (λ c. if leb b'A' c && leb c b'Z' then c + 32 else c)
