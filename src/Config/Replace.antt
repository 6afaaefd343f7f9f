-- ===== src/Config/Replace.antt =====
-- internal/config/replace_windows.go and replace_unix.go: `replaceFile`, which puts a written file in
-- the place of another.
use tailclip.Base.{
  ◌≡◌, Bool, ◌||◌, none, some, Bytes, arith, contains_byte, if◌then◌else◌, Result, ok, err,
  Option-cases, inl, inr,
}
use tailclip.Base.Map.{Map, get, put, delete, get-put_self}

-- What `MoveFileEx` answers; `not_found` is ERROR_FILE_NOT_FOUND.
pub data Move : Type 0 where
  moved not_found failing : Move

pub data ReplaceError : Type 0 where
  has_nul not_moved : ReplaceError

abbrev pub Done : Type 0
Done = Result ReplaceError (Unit {0})

-- The file under its new name; there is none if there was none under the old one.
unfoldable pub moved_over : Bytes → Bytes → Map Bytes → Done × Map Bytes
moved_over source target d = elim (get source d) [
  | none ↦ (err not_moved, d)
  | some content ↦ (ok tt, put target content (delete source d))
]

-- `os.Rename`, which may fail.
unfoldable pub rename : Bool → Bytes → Bytes → Map Bytes → Done × Map Bytes
unfolding moved_over
rename works source target d = if works then moved_over source target d else (err not_moved, d)

unfoldable pub replace_file : Move → (works : Bool) → Bytes → Bytes → Map Bytes → Done × Map Bytes
unfolding rename
replace_file answer works source target d =
    if contains_byte 0 source || contains_byte 0 target then (err has_nul, d) else elim answer [
      | moved ↦ moved_over source target d
      | not_found ↦ rename works source target d
      | failing ↦ (err not_moved, d)
    ]

abbrev pub Replaced : Bytes → Bytes → Map Bytes → Done × Map Bytes → Type 0
Replaced source target d (ok _, after) = get target after ≡ get source d
Replaced source target d (err e, after) = after ≡ d

-- A replacement that reports success leaves the written file in the place of the other; one that
-- fails changes nothing.
pub replace_file-Replaced :
    (answer : Move) (works : Bool) (source target : Bytes) (d : Map Bytes)
    → Replaced source target d (replace_file answer works source target d)
unfolding replace_file moved_over
replace_file-Replaced answer works source target d = elim (Option-cases (get source d)) [
  | inl e ↦ ground arith
  | inr (content, e) ↦ ground (arith, get-put_self target content (delete source d))
]
