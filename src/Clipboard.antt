-- ===== src/Clipboard.antt =====
-- internal/clipboard/clipboard.go: the errors, the interface `Backend`, the lock `Synchronized` and
-- the backend `Memory`. A context is what `ctx.Err()` gives at the call; a mutex makes each call one
-- step, so a call maps the state of the clipboard to a result and the next state.
pub mod Session
pub mod Laws
pub mod Utf16
pub mod Windows
pub mod Linux
pub mod Unsupported
use tailclip.Base.{
  Bool, true, false, not, Option, none, some, [], Bytes, is_empty, if◌then◌else◌, Result, ok, err,
}

-- An error that wraps a sentinel of the package is that sentinel here; `system` is any other. The
-- last two are made by `sessionCleanupError`, the first of them after a failed operation.
pub data ClipError : Type 0 where
  unavailable busy no_text : ClipError
  canceled deadline_exceeded system : ClipError
  cleanup_after : (operation cleanup : ClipError) → ClipError
  cleanup : ClipError → ClipError

-- The error that `errors.Is` finds at the end of the chain: only the cleanup error is wrapped.
unfoldable pub root : ClipError → ClipError
root (cleanup_after o c) = root c
root (cleanup c) = root c
root e = e

unfoldable pub is_busy : ClipError → Bool
unfolding root
is_busy e = elim (root e) [ busy ↦ true | _ ↦ false ]

unfoldable pub is_unavailable : ClipError → Bool
unfolding root
is_unavailable e = elim (root e) [ unavailable ↦ true | _ ↦ false ]

unfoldable pub is_no_text : ClipError → Bool
unfolding root
is_no_text e = elim (root e) [ no_text ↦ true | _ ↦ false ]

abbrev pub Context : Type 0
Context = Option ClipError

abbrev pub Done : Type 0
Done = Result ClipError (Unit {0})

pub record Backend (S : Type 0) : Type 0 where
  pub available : Context → S → Done × S
  pub read_text : Context → S → Result ClipError Bytes × S
  pub write_text : Context → Bytes → S → Done × S

unfoldable pub when_live {ℓ} :
    {S : Type 0} {A : Type ℓ} → Context → (S → Result ClipError A × S) → S → Result ClipError A × S
when_live none call s = call s
when_live (some e) call s = (err e, s)

abbrev pub synchronized : {S : Type 0} → Backend S → Backend S
synchronized b = record {
  available = λ ctx. when_live ctx (b.available ctx);
  read_text = λ ctx. when_live ctx (b.read_text ctx);
  write_text = λ ctx t. when_live ctx (b.write_text ctx t);
}

pub record Memory : Type 0 where
  pub text : Bytes
  pub available : Bool

abbrev pub new_memory : Memory
new_memory = record { text = []; available = true }

unfoldable pub memory_available : Memory → Done
memory_available m = if not m.available then err unavailable else ok tt

unfoldable pub memory_read : Memory → Result ClipError Bytes
memory_read m =
    if not m.available then err unavailable else if is_empty m.text then err no_text else ok m.text

unfoldable pub memory_write : Bytes → Memory → Done × Memory
memory_write t m = if not m.available then (err unavailable, m) else (ok tt, record m { text = t })

unfoldable pub set_available : Bool → Memory → Memory
set_available a m = record m { available = a }

abbrev pub memory : Backend Memory
memory = record {
  available = λ ctx m. (memory_available m, m);
  read_text = λ ctx m. (memory_read m, m);
  write_text = λ ctx. memory_write;
}
