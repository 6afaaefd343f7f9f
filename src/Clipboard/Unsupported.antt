-- ===== src/Clipboard/Unsupported.antt =====
-- internal/clipboard/backend_unsupported.go: the clipboard of the systems that have none. It keeps the
-- laws of the interface, since no call of it succeeds.
use tailclip.Base.{[], refl, err}
use tailclip.Clipboard.{Backend, unavailable}
use tailclip.Clipboard.Laws.{IsLawful}

-- `unsupportedBackend`, which has no state.
abbrev pub unsupported_backend : Backend (Unit {0})
unsupported_backend = record {
  available = λ ctx s. (err unavailable, s);
  read_text = λ ctx s. (err unavailable, s);
  write_text = λ ctx t s. (err unavailable, s);
}

unsupported_backend-IsLawful : IsLawful unsupported_backend
unsupported_backend-IsLawful = record {
  holds = λ s. [];
  write_ok = λ ctx t s h. cc;
  write_err = λ ctx t s e h. refl;
  read_ok = λ ctx t s h. cc;
  read_keeps = λ ctx s. refl;
}
