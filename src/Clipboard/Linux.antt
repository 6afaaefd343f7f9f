-- ===== src/Clipboard/Linux.antt =====
-- internal/clipboard/backend_linux.go: the clipboard of Wayland through the commands wl-copy and
-- wl-paste, over a desktop whose state is a parameter.
use tailclip.Base.{
  Bool, true, false, not, ◌||◌, none, some, Bytes, bytes, is_empty, contains, to_lower, trim_space,
  if◌then◌else◌, Result, ok, err,
}
use tailclip.Clipboard.{Backend, ClipError, Context, Done, unavailable, no_text}

-- What the process finds: an environment variable, the programs on the path, and what the programs
-- do. `paste` gives the output or, of a run that failed, the standard error; `copy` is whether the run
-- succeeded, and the next state; `ended` is the context's error after a run.
pub record Commands (S : Type 0) : Type 0 where
  pub wayland_display : Bytes
  pub look_path : Bytes → Bool
  pub paste : S → Result Bytes Bytes
  pub copy : Bytes → S → Bool × S
  pub ended : Context → S → Context

unfoldable pub linux_available : {S : Type 0} → Commands S → Done
linux_available c =
    if is_empty (trim_space c.wayland_display)
    then err unavailable
    else if not (c.look_path (bytes "wl-copy"))
    then err unavailable
    else if not (c.look_path (bytes "wl-paste"))
    then err unavailable
    else ok tt

-- Whether wl-paste says that there is nothing, or no text.
unfoldable pub says_no_text : Bytes → Bool
says_no_text stderr =
    let message = to_lower stderr in
    contains message (bytes "no selection") || contains message (bytes "does not offer")

unfoldable pub pasted : Result Bytes Bytes → Context → Result ClipError Bytes
pasted (ok output) ended = if is_empty output then err no_text else ok output
pasted (err stderr) (some e) = err e
pasted (err stderr) none = if says_no_text stderr then err no_text else err unavailable

unfoldable pub linux_read : {S : Type 0} → Commands S → Context → S → Result ClipError Bytes
linux_read c ctx s = elim (linux_available c) [
  | err e ↦ err e
  | ok _ ↦ pasted (c.paste s) (c.ended ctx s)
]

unfoldable pub copied : Bool → Context → Done
copied true ended = ok tt
copied false (some e) = err e
copied false none = err unavailable

unfoldable pub linux_write : {S : Type 0} → Commands S → Context → Bytes → S → Done × S
linux_write c ctx text s =
    let (succeeded, next) = c.copy text s in
    elim (linux_available c) [
      | err e ↦ (err e, s)
      | ok _ ↦ (copied succeeded (c.ended ctx next), next)
    ]

abbrev pub linux_backend : {S : Type 0} → Commands S → Backend S
linux_backend c = record {
  available = λ ctx s. (linux_available c, s);
  read_text = λ ctx s. (linux_read c ctx s, s);
  write_text = linux_write c;
}
