-- ===== src/Clipboard/Windows/Reading.antt =====
-- A text that was written to the clipboard of Windows is read from it again.
use tailclip.Base.{
  ℕ, zero, suc, ◌*◌, ◌/◌, ◌≤◌, ◌≡◌, refl, sym, ap, ◌∙◌, true, false, Option, some, List, [], ◌∷◌,
  ◌++◌, arith, Bytes, length, length-append, take, is_empty, contains_byte, valid_utf8, ◌==◌,
  if◌then◌else◌, ok, err,
}
use tailclip.Clipboard.{no_text}
use tailclip.Clipboard.Session.{run, Event}
use tailclip.Clipboard.Utf16.{
  runes, runes_from, decode_rune, string_of, encode, encode_unit, decode, before_nul,
}
use tailclip.Clipboard.Utf16.Laws.{decode-before_nul, before_nul-encode}
use tailclip.Clipboard.Utf16.Valid.{string_of-runes}
use tailclip.Clipboard.Windows.{
  Win32, Written, write_text, read_text, read_units, text_of_units, windows_clipboard_session,
  nul_terminated, failing, copied,
}
use tailclip.Clipboard.Windows.Ownership.{write_text_ok, run-ran}

-- What the system answers to a reader while the clipboard holds `contents`: the block may be larger
-- than what was stored in it.
pub record Serves (contents : List ℕ) (w : Win32) : Type 0 where
  pub is_available : failing w.is_format_available ≡ false
  pub is_given : failing w.get_clipboard_data ≡ false
  pub is_locked : failing w.global_lock ≡ false
  pub slack : List ℕ
  pub holds : w.memory ≡ contents ++ slack
  pub sized : 2 * length contents ≤ w.global_size.0

-- A transaction that the system lets through.
abbrev pub GoesThrough : Win32 → ℕ → Type 0
GoesThrough w start =
    (log : List Event) × (run (windows_clipboard_session w) start (ok tt) ≡ some (ok tt, log))

before_nul-take :
    (n : ℕ) (us slack : List ℕ)
    → suc (length us) ≤ n
    → before_nul (take n ((us ++ 0 ∷ []) ++ slack)) ≡ before_nul us
unfolding before_nul
before_nul-take zero us slack h = ground arith
before_nul-take (suc n) [] slack h = ground arith
before_nul-take (suc n) (u ∷ us) slack h = ground (arith, before_nul-take n us slack (omega arith))

is_empty-encode : (rs : List ℕ) → is_empty (encode rs) ≡ is_empty rs
unfolding encode encode_unit
is_empty-encode [] = refl
is_empty-encode (r ∷ rs) = ground arith

decode_rune_zero : (a : ℕ) (s : Bytes) → (a == 0) ≡ false → ((decode_rune a s).0 == 0) ≡ false
unfolding decode_rune
decode_rune_zero a [] h = ground arith
decode_rune_zero a (b ∷ []) h = ground arith
decode_rune_zero a (b ∷ c ∷ []) h = ground arith
decode_rune_zero a (b ∷ c ∷ d ∷ s) h = ground arith

before_nul-runes_from :
    (k : ℕ) (t : Bytes) → contains_byte 0 t ≡ false → before_nul (runes_from k t) ≡ runes_from k t
unfolding before_nul runes_from contains_byte
before_nul-runes_from k [] h = refl
before_nul-runes_from zero (a ∷ t) h =
    let (r, k) = decode_rune a t in ground (arith, decode_rune_zero a t, before_nul-runes_from k t)
before_nul-runes_from (suc k) (a ∷ t) h = ground (arith, before_nul-runes_from k t)

-- What a reader makes of the units that a writer stored.
text_of_units-nul_terminated :
    (n : ℕ) (text : Bytes) (slack : List ℕ)
    → suc (length (encode (runes text))) ≤ n
    → text_of_units (take n (nul_terminated text ++ slack)) ≡ (
        if is_empty (before_nul (runes text))
        then err no_text
        else ok (string_of (before_nul (runes text))))
unfolding text_of_units
text_of_units-nul_terminated n text slack h =
    rw
      (
        before_nul-take n (encode (runes text)) slack h,
        before_nul-encode (runes text),
        is_empty-encode (before_nul (runes text)),
      )
      (ap (λ rs. if is_empty (before_nul (runes text)) then err no_text else ok (string_of rs))
        (sym (ap decode (before_nul-encode (runes text))) ∙ decode-before_nul text))

read_units_ok :
    (contents : List ℕ) (w : Win32)
    → (s : Serves contents w) → 2 ≤ 2 * length contents
    → read_units w ≡ ok (take (w.global_size.0 / 2) (contents ++ s.slack))
unfolding read_units
read_units_ok contents w s h =
    let size = s.sized in
    let held = s.holds in rw (s.is_available, s.is_given, s.is_locked, held) ground arith

read_text-GoesThrough :
    (w : Win32) (start : ℕ) (us : List ℕ)
    → GoesThrough w start
    → read_units w ≡ ok us
    → read_text w start ≡ some (text_of_units us)
unfolding read_text
read_text-GoesThrough w start us (log, e) h =
    let (p, q) = run-ran w start (ok tt) log e in
    rw (read_text, h, e, q) (ap (λ x. some (text_of_units (copied x))) h)

-- Of any text such a reader reads what stands before the first NUL, with what is no UTF-8 in it
-- replaced, or is told that there is none.
pub read_text-write_text :
    (v w : Win32) (written start : ℕ) (text : Bytes) (before : Option (List ℕ)) (r : Written)
    → write_text v written text before ≡ some r
    → r.result ≡ ok tt
    → ((contents : List ℕ) → r.clipboard ≡ some contents → Serves contents w)
    → GoesThrough w start
    → read_text w start
      ≡ some (
          if is_empty (before_nul (runes text))
          then err no_text
          else ok (string_of (before_nul (runes text))))
read_text-write_text v w written start text before r h o serves through =
    let s = serves (nul_terminated text) (write_text_ok v written text before r h o) in
    let long = length-append (encode (runes text)) (0 ∷ []) in
    let sized = s.sized in
    let half = w.global_size.0 / 2 in
    read_text-GoesThrough w start (take half (nul_terminated text ++ s.slack)) through
      (read_units_ok (nul_terminated text) w s (omega arith))
    ∙ ap some (text_of_units-nul_terminated half text s.slack (omega arith))

-- After a write that reports success, a reader whose transaction the system lets through, and to
-- whom it gives what the clipboard then holds, in a block that may be larger, reads the text as it
-- was written, where that is valid UTF-8 without a NUL and not empty.
pub read_text-write_text_valid :
    (v w : Win32) (written start : ℕ) (text : Bytes) (before : Option (List ℕ)) (r : Written)
    → write_text v written text before ≡ some r
    → r.result ≡ ok tt
    → ((contents : List ℕ) → r.clipboard ≡ some contents → Serves contents w)
    → GoesThrough w start
    → valid_utf8 text ≡ true
    → contains_byte 0 text ≡ false
    → is_empty text ≡ false
    → read_text w start ≡ some (ok text)
unfolding runes runes_from
read_text-write_text_valid v w written start [] before r h o serves through valid nul e = cc
read_text-write_text_valid v w written start (a ∷ text) before r h o serves through valid nul e =
    read_text-write_text v w written start (a ∷ text) before r h o serves through
    ∙ rw (before_nul-runes_from 0 (a ∷ text) nul)
        (ap (λ t. some (ok t)) (string_of-runes (a ∷ text) valid))
