-- ===== src/Clipboard/Laws.antt =====
-- An interface over the text that a clipboard holds, for backends whose writes take effect or do
-- nothing. That of Windows empties the clipboard first, so a write that fails there may lose the text.
use tailclip.Base.{◌≡◌, refl, none, some, arith, Bytes, ok, err}
use tailclip.Clipboard.{
  Backend, Context, ClipError, when_live, synchronized, memory, memory_read, memory_write,
}

-- `holds s` is the text in the clipboard, empty if there is none. A write that succeeds replaces it,
-- one that fails leaves it, and reading gives it and changes nothing.
pub record IsLawful {S : Type 0} (b : Backend S) : Type 0 where
  pub holds : S → Bytes
  pub write_ok :
      (ctx : Context) (t : Bytes) (s : S)
      → (b.write_text ctx t s).0 ≡ ok tt
      → holds (b.write_text ctx t s).1 ≡ t
  pub write_err :
      (ctx : Context) (t : Bytes) (s : S) (e : ClipError)
      → (b.write_text ctx t s).0 ≡ err e
      → holds (b.write_text ctx t s).1 ≡ holds s
  pub read_ok : (ctx : Context) (t : Bytes) (s : S) → (b.read_text ctx s).0 ≡ ok t → t ≡ holds s
  pub read_keeps : (ctx : Context) (s : S) → holds (b.read_text ctx s).1 ≡ holds s

pub memory-IsLawful : IsLawful memory
unfolding memory_read memory_write
memory-IsLawful = record {
  holds = λ m. m.text;
  write_ok = λ ctx t s h. ground arith;
  write_err = λ ctx t s e h. ground arith;
  read_ok = λ ctx t s h. ground arith;
  read_keeps = λ ctx s. refl;
}

-- The lock keeps the laws.
pub synchronized-IsLawful : {S : Type 0} (b : Backend S) → IsLawful b → IsLawful (synchronized b)
unfolding when_live
synchronized-IsLawful b l = record {
  holds = l.holds;
  write_ok = elim [ none ↦ l.write_ok none | some x ↦ λ t s h. cc ];
  write_err = elim [ none ↦ l.write_err none | some x ↦ λ t s e h. refl ];
  read_ok = elim [ none ↦ l.read_ok none | some x ↦ λ t s h. cc ];
  read_keeps = elim [ none ↦ l.read_keeps none | some x ↦ λ s. refl ];
}

-- A cancelled call never reaches the backend.
synchronized-cancelled :
    {S : Type 0} (b : Backend S) (e : ClipError) (t : Bytes) (s : S)
    → ((synchronized b).available (some e) s ≡ (err e, s))
      × ((synchronized b).read_text (some e) s ≡ (err e, s))
      × ((synchronized b).write_text (some e) t s ≡ (err e, s))
unfolding when_live
synchronized-cancelled b e t s = (refl, refl, refl)
