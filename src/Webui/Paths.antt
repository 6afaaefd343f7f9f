-- ===== src/Webui/Paths.antt =====
-- The path of a setup page, taken apart.
use tailclip.Base.{
  ℕ, ◌≡◌, refl, ap, sym, ◌∙◌, false, ◌||◌, [], ◌∷◌, ◌++◌, arith, Bytes, bytes, reverse,
  contains_byte, is_empty,
}
use mathlib.Core.List.{reverse-append, reverse-reverse}
use tailclip.Webui.{slash, drop_slashes, split_slashes, first_with, path_parts}

contains_byte-append :
    (b : ℕ) (s t : Bytes) → contains_byte b (s ++ t) ≡ (contains_byte b s || contains_byte b t)
unfolding contains_byte
contains_byte-append b [] t = refl
contains_byte-append b (c ∷ s) t = ground (arith, contains_byte-append b s t)

contains_byte-reverse : (b : ℕ) (s : Bytes) → contains_byte b (reverse s) ≡ contains_byte b s
unfolding contains_byte
contains_byte-reverse b [] = refl
contains_byte-reverse b (c ∷ s) =
    ap (contains_byte b) (reverse-append (c ∷ []) s)
    ∙ ground (arith, contains_byte-append b (reverse s) (c ∷ []), contains_byte-reverse b s)

drop_slashes-kept :
    (s t : Bytes)
    → is_empty s ≡ false
    → contains_byte slash s ≡ false
    → drop_slashes (s ++ t) ≡ s ++ t
unfolding drop_slashes contains_byte
drop_slashes-kept [] t e h = cc
drop_slashes-kept (c ∷ s) t e h = ground arith

split_slashes-one : (s : Bytes) → contains_byte slash s ≡ false → split_slashes s ≡ s ∷ []
unfolding split_slashes contains_byte first_with
split_slashes-one [] h = refl
split_slashes-one (c ∷ s) h = ground (arith, split_slashes-one s)

append-not_empty : (s : Bytes) (c : ℕ) → is_empty (s ++ c ∷ []) ≡ false
append-not_empty [] c = refl
append-not_empty (d ∷ s) c = refl

reverse-not_empty : (s : Bytes) → is_empty s ≡ false → is_empty (reverse s) ≡ false
reverse-not_empty [] h = cc
reverse-not_empty (c ∷ s) h =
    ap is_empty (reverse-append (c ∷ []) s) ∙ append-not_empty (reverse s) c

-- A page is found by the last part of its path, if that has no slash.
pub path_parts-setup :
    (n : Bytes)
    → is_empty n ≡ false
    → contains_byte slash n ≡ false
    → path_parts (bytes "/setup/" ++ n) ≡ bytes "setup" ∷ n ∷ []
unfolding path_parts drop_slashes split_slashes first_with
path_parts-setup n some_name no_slash =
    let m = bytes "setup/" ++ n in
    let apart : reverse m ≡ reverse n ++ reverse (bytes "setup/") =
      reverse-append (bytes "setup/") n in
    let kept : drop_slashes (reverse m) ≡ reverse m =
      ap drop_slashes apart
      ∙ drop_slashes-kept (reverse n) (reverse (bytes "setup/")) (reverse-not_empty n some_name)
          (contains_byte-reverse slash n ∙ no_slash)
      ∙ sym apart in
    ap (λ s. split_slashes (reverse s)) kept
    ∙ ap split_slashes (reverse-reverse m)
    ∙ ap (λ parts. bytes "setup" ∷ parts) (split_slashes-one n no_slash)
