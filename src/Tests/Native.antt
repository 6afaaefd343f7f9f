-- ===== src/Tests/Native.antt =====
-- Texts written to and read from the clipboard of Windows.
use tailclip.Base.{
  ℕ, ◌+◌, ◌≡◌, subst, refl, Bool, true, false, Option, none, some, List, [], ◌∷◌, ◌++◌, Bytes,
  bytes, arith, if◌then◌else◌, is_empty, Result, ok, err,
}
use tailclip.Clipboard.{Done, system}
use tailclip.Clipboard.Session.{Event}
use tailclip.Clipboard.Windows.{Win32, Written, Step, write_text, read_text, nul_terminated}
use tailclip.Clipboard.Windows.Ownership.{
  IsAccounted, Leaves, write_text-IsAccounted, write_text-Leaves,
}
use tailclip.Clipboard.Windows.Reading.{Serves, read_text-write_text_valid}

-- "é", then a character outside the basic plane.
abbrev text : Bytes
text = 0xc3 ∷ 0xa9 ∷ 0xf0 ∷ 0x9f ∷ 0x98 ∷ 0x80 ∷ []

abbrev units : List ℕ
units = 0xe9 ∷ 0xd83d ∷ 0xde00 ∷ 0 ∷ []

-- A system on which every call succeeds; the block that is read is larger than what it holds.
abbrev win : Win32
win = record {
  ctx = λ t. none;
  create_window = (9, 0);
  destroy_window = λ w. (1, 0);
  open_clipboard = λ i. (1, 0);
  open_time = λ i. 0;
  interrupted = λ i. none;
  oversleep = λ i. 0;
  close_clipboard = (1, 0);
  global_alloc = (7, 0);
  global_lock = (8, 0);
  empty_clipboard = (1, 0);
  set_clipboard_data = (7, 0);
  is_format_available = (1, 0);
  get_clipboard_data = (7, 0);
  global_size = (12, 0);
  memory = units ++ 5 ∷ 6 ∷ [];
}

-- The clipboard is emptied, and the text is then not taken.
abbrev refusing : Win32
refusing = record win { set_clipboard_data = (0, 8) }

write_text-IsAccounted_example : IsAccounted (write_text refusing 0 text (some units))
write_text-IsAccounted_example = write_text-IsAccounted refusing 0 text (some units)

write_text-Leaves_example :
    Leaves (some units) (nul_terminated text) (write_text refusing 0 text (some units))
write_text-Leaves_example = write_text-Leaves refusing 0 text (some units)

abbrev written : Written
written = record {
  result = ok tt;
  clipboard = some units;
  steps =
      Step.allocated
      ∷ Step.locked
      ∷ Step.filled units
      ∷ Step.unlocked
      ∷ Step.emptied
      ∷ Step.stored
      ∷ [];
}

serves : (contents : List ℕ) → written.clipboard ≡ some contents → Serves contents win
serves contents h = subst (λ c. Serves c win) same_units holding
  where
    same_units : units ≡ contents
    same_units = cc

    holding : Serves units win
    holding = record {
      is_available = refl;
      is_given = refl;
      is_locked = refl;
      slack = 5 ∷ 6 ∷ [];
      holds = refl;
      sized = omega arith;
    }

abbrev passed : List Event
passed = Event.created 9 ∷ Event.opened ∷ Event.operated ∷ Event.closed ∷ Event.destroyed 9 ∷ []

read_text-write_text_valid_example : read_text win 0 ≡ some (ok text)
unfolding write_text tailclip.Clipboard.Session.run
    tailclip.Clipboard.Windows.windows_clipboard_session
    tailclip.Clipboard.Windows.create_clipboard_owner
    tailclip.Clipboard.Session.retry_open_clipboard tailclip.Clipboard.Session.retry
    tailclip.Clipboard.Windows.open_error tailclip.Clipboard.Windows.replace_units
    tailclip.Clipboard.Windows.ran tailclip.Clipboard.Utf16.encode tailclip.Clipboard.Utf16.runes
    tailclip.Clipboard.Utf16.runes_from tailclip.Clipboard.Utf16.encode_unit
    tailclip.Clipboard.Utf16.decode_rune tailclip.Base.valid_utf8 tailclip.Base.contains_byte
read_text-write_text_valid_example =
    read_text-write_text_valid win win 0 0 text none written refl refl serves (passed, refl) refl
      refl refl
