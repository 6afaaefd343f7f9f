-- ===== src/Logging.antt =====
-- internal/logging/logging.go: `rotatingWriter`, over the log file and its one backup. Nobody else
-- touches the two files. Each system call may fail, as the environment chooses.
pub mod Rotation
use tailclip.Base.{
  ℕ, ◌+◌, Bool, true, false, not, ◌&&◌, Option, none, some, [], ◌++◌, Bytes, length, take, ltb,
  if◌then◌else◌, Result, ok, err,
}

abbrev pub max_file_bytes : ℕ
max_file_bytes = 1_048_576

pub data LogError : Type 0 where
  bad_limit no_directory not_opened no_stat already_closed not_closed not_renamed not_written :
      LogError

-- The field `file`: `absent` is `nil`, and `stale` is a file that was closed and not replaced.
pub data Handle : Type 0 where
  absent active stale : Handle

pub record Writer : Type 0 where
  pub max : ℕ
  pub file : Handle
  pub size : ℕ
  pub current : Option Bytes
  pub backup : Option Bytes

-- Which calls fail; `write` gives the number of bytes after which a write fails.
pub record Faults : Type 0 where
  pub mkdir : Bool
  pub stat : Bool
  pub close : Bool
  pub remove : Bool
  pub rename : Bool
  pub open_file : Bool
  pub write : Option ℕ

content_of : Option Bytes → Bytes
content_of none = []
content_of (some s) = s

unfoldable pub new_writer : Faults → ℕ → (current backup : Option Bytes) → Result LogError Writer
unfolding content_of
new_writer f max current backup =
    if not (ltb 0 max)
    then err bad_limit
    else if f.mkdir
    then err no_directory
    else if f.open_file
    then err not_opened
    else if f.stat
    then err no_stat
    else ok (record {
      max = max;
      file = active;
      size = length (content_of current);
      current = some (content_of current);
      backup = backup;
    })

-- `Open`, as far as the writer goes; `slog` wraps it.
unfoldable pub open_log : Faults → (current backup : Option Bytes) → Result LogError Writer
open_log f current backup = new_writer f max_file_bytes current backup

-- A file that is not there cannot be renamed, which is no error here.
renamed : Faults → Option Bytes → Writer → Result LogError (Unit {0}) × Writer
renamed f none w = (ok tt, w)
renamed f (some s) w =
    if f.rename then (err not_renamed, w) else (ok tt, record w { current = none; backup = some s })

reopened : Faults → Result LogError (Unit {0}) × Writer → Result LogError (Unit {0}) × Writer
reopened f (err e, w) = (err e, w)
reopened f (ok _, w) =
    if f.open_file
    then (err not_opened, w)
    else (ok tt, record w { file = active; size = 0; current = some [] })

-- `Close` makes the file unusable, even where it reports an error.
unfoldable pub rotate : Faults → Writer → Result LogError (Unit {0}) × Writer
unfolding renamed reopened
rotate f w = elim w.file [
  | absent ↦ (err already_closed, w)
  | stale ↦ (err already_closed, w)
  | active ↦
      let w' = record w { file = stale } in
      if f.close
      then (err not_closed, w')
      else reopened f
          (renamed f w.current (record w' { backup = if f.remove then w.backup else none }))
]

unfoldable pub append : Faults → Bytes → Writer → Result LogError ℕ × Writer
unfolding content_of
append f contents w = elim w.file [
  | absent ↦ (err already_closed, w)
  | stale ↦ (err already_closed, w)
  | active ↦ elim f.write [
    | none ↦ (
      ok (length contents),
      record w {
        size = w.size + length contents;
        current = some (content_of w.current ++ contents);
      },
    )
    | some n ↦ (
      err not_written,
      record w {
        size = w.size + length (take n contents);
        current = some (content_of w.current ++ take n contents);
      },
    )
  ]
]

rotated : Faults → Bytes → Result LogError (Unit {0}) × Writer → Result LogError ℕ × Writer
unfolding append
rotated f contents (err e, w) = (err e, w)
rotated f contents (ok _, w) = append f contents w

unfoldable pub write : Faults → Bytes → Writer → Result LogError ℕ × Writer
unfolding rotated
write f contents w = elim w.file [
  | absent ↦ (err already_closed, w)
  | _ ↦
      if ltb 0 w.size && ltb w.max (w.size + length contents)
      then rotated f contents (rotate f w)
      else append f contents w
]

unfoldable pub close : Faults → Writer → Result LogError (Unit {0}) × Writer
close f w = elim w.file [
  | absent ↦ (ok tt, w)
  | stale ↦ (err already_closed, record w { file = absent })
  | active ↦ (if f.close then err not_closed else ok tt, record w { file = absent })
]
