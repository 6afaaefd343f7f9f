-- ===== src/Api/Transfer.antt =====
-- What happens to the text: between the request, the clipboard and the response.
use tailclip.Base.{
  ℕ, ◌≤◌, ◌≡◌, ◌≢◌, refl, true, false, arith, Bytes, bytes, length, contains_byte, valid_utf8, same,
  is_empty, Result, ok, err,
}
use tailclip.Http.{Request, Parsers}
use tailclip.Clipboard.{
  Backend, Context, Done, Memory, memory, memory_read, memory_write, ClipError,
}
use tailclip.Clipboard.Laws.{IsLawful}
use tailclip.Config.Settings.{Config}
use tailclip.Api.{max_text_bytes, Refusal, text_reply, stored_reply, write_json, write_error}
use tailclip.Api.Refusals.{clipboard_refusal}
use tailclip.Api.Handlers.{
  Answer, checked_text, clipboard_text, write_clipboard, read_clipboard, stored_answer, read_answer,
  text_answer, refused, store,
}

-- What may be stored.
pub record IsText (t : Bytes) : Type 0 where
  pub not_empty : is_empty t ≡ false
  pub no_nul : contains_byte 0 t ≡ false
  pub fits : length t ≤ max_text_bytes

pub checked_text-IsText :
    (p : Parsers) (r : Request) (t : Bytes) → checked_text p r ≡ ok t → IsText t
unfolding checked_text
checked_text-IsText p r t h = ground arith

clipboard_refusal-status : (e : ClipError) → (clipboard_refusal e).status ≢ 200
unfolding clipboard_refusal
clipboard_refusal-status e h = ground arith

checked_text_err :
    (p : Parsers) (r : Request) (f : Refusal × ℕ) → checked_text p r ≡ err f → f.0.status ≢ 200
unfolding checked_text
checked_text_err p r f h e = ground arith

-- How a POST ends. Its text is handed to the backend once, which takes it or fails; or it is refused,
-- and the backend is not called. `wanted` is what the check of the request gives.
pub data Posted {S : Type 0} (b : Backend S) (name : Bytes) (ctx : Context)
    (wanted : Result (Refusal × ℕ) Bytes) (before after : S) (a : Answer) : Type 0 where
  stored :
      (t : Bytes)
      → wanted ≡ ok t
      → IsText t
      → b.write_text ctx t before ≡ (ok tt, after)
      → a.0.status ≡ 200
      → a.0.reply ≡ stored_reply name (length t)
      → Posted b name ctx wanted before after a
  failed :
      (t : Bytes) (e : ClipError)
      → wanted ≡ ok t
      → IsText t
      → b.write_text ctx t before ≡ (err e, after)
      → a.0.status ≢ 200
      → a.0 ≡ write_error (clipboard_refusal e)
      → Posted b name ctx wanted before after a
  kept :
      (f : Refusal × ℕ)
      → wanted ≡ err f
      → after ≡ before
      → a.0.status ≢ 200
      → a.0 ≡ write_error f.0
      → Posted b name ctx wanted before after a

module _ {S : Type 0} (p : Parsers) (cfg : Config) (b : Backend S) where
  pub clipboard_text-post :
      (r : Request) (s : S)
      → r.method ≡ bytes "POST"
      → clipboard_text p cfg b r s ≡ store cfg b r s (checked_text p r)
  unfolding clipboard_text write_clipboard same
  clipboard_text-post r s e = rw e

  pub clipboard_text-get :
      (r : Request) (s : S)
      → r.method ≡ bytes "GET"
      → clipboard_text p cfg b r s ≡ read_clipboard cfg b r s
  unfolding clipboard_text same
  clipboard_text-get r s e = rw e

module _ {S : Type 0} (p : Parsers) (cfg : Config) (b : Backend S) where
  refused-Posted :
      (r : Request) (s : S) (f : Refusal × ℕ)
      → checked_text p r ≡ err f
      → Posted b cfg.device_name r.ctx (checked_text p r) s s (refused f)
  unfolding refused write_error
  refused-Posted r s f e = kept f e refl (checked_text_err p r f e) refl

  stored-Posted :
      (r : Request) (s s' : S) (t : Bytes) (d : Done)
      → checked_text p r ≡ ok t
      → b.write_text r.ctx t s ≡ (d, s')
      → Posted b cfg.device_name r.ctx (checked_text p r) s s' (stored_answer cfg t d)
  unfolding stored_answer refused write_json write_error
  stored-Posted r s s' t (ok _) e d = stored t e (checked_text-IsText p r t e) d refl refl
  stored-Posted r s s' t (err x) e d =
      failed t x e (checked_text-IsText p r t e) d (clipboard_refusal-status x) refl

  store-Posted :
      (r : Request) (s : S) (w : Result (Refusal × ℕ) Bytes)
      → checked_text p r ≡ w
      → let (a, s') = store cfg b r s w in Posted b cfg.device_name r.ctx (checked_text p r) s s' a
  unfolding store
  store-Posted r s (err f) e = refused-Posted r s f e
  store-Posted r s (ok t) e =
      let (d, s') = b.write_text r.ctx t s in stored-Posted r s s' t d e refl

  -- Over any clipboard, and in any state of it: a POST whose text passes the check hands exactly this
  -- text to the clipboard, once, which is not empty, has no NUL and at most 1 MiB. It is answered
  -- with 200 and the text's length exactly if the clipboard reports that it took it, and with the
  -- clipboard's error otherwise. A POST that the check refuses does not touch the clipboard.
  pub post-Posted :
      (r : Request) (s : S)
      → r.method ≡ bytes "POST"
      → let (a, s') = clipboard_text p cfg b r s in
        Posted b cfg.device_name r.ctx (checked_text p r) s s' a
  post-Posted r s e =
      rw (clipboard_text-post p cfg b r s e) (store-Posted r s (checked_text p r) refl)

module _ {S : Type 0} (p : Parsers) (cfg : Config) (b : Backend S) (law : IsLawful b) where
  text_answer_sound :
      (t name text : Bytes)
      → (text_answer cfg t).0.reply ≡ text_reply name text
      → (text ≡ t)
        × (name ≡ cfg.device_name)
        × IsText t
        × (valid_utf8 t ≡ true)
        × ((text_answer cfg t).1.bytes ≡ length t)
  unfolding text_answer write_json write_error
  text_answer_sound t name text h = ground arith

  read_answer_sound :
      (x : Result ClipError Bytes) (name text : Bytes)
      → (read_answer cfg x).0.reply ≡ text_reply name text
      → (x ≡ ok text) × (name ≡ cfg.device_name) × IsText text × (valid_utf8 text ≡ true)
  unfolding read_answer write_json write_error
  read_answer_sound (ok t) name text h = ground (arith, text_answer_sound t name text h)
  read_answer_sound (err e) name text h = ground arith

  -- A GET that hands out a text hands out the clipboard's, which is valid UTF-8, not empty, has no
  -- NUL and at most 1 MiB; the clipboard keeps it.
  pub get_sound :
      (r : Request) (s : S) (name text : Bytes)
      → r.method ≡ bytes "GET"
      → (clipboard_text p cfg b r s).0.0.reply ≡ text_reply name text
      → (text ≡ law.holds s)
        × IsText text
        × (valid_utf8 text ≡ true)
        × (law.holds (clipboard_text p cfg b r s).1 ≡ law.holds s)
  unfolding read_clipboard
  get_sound r s name text e h =
      let answered = clipboard_text-get p cfg b r s e in
      let h' : (read_answer cfg (b.read_text r.ctx s).0).0.reply ≡ text_reply name text =
        rw answered at h in
      let (read, _, good, valid) = read_answer_sound _ name text h' in
      (law.read_ok r.ctx text s read, good, valid, rw answered (law.read_keeps r.ctx s))

-- What a POST stored in the clipboard of memory is what the next GET hands out, where the text is
-- valid UTF-8.
pub roundtrip :
    (p : Parsers) (cfg : Config) (post get : Request) (m : Memory) (t : Bytes)
    → post.method ≡ bytes "POST"
    → get.method ≡ bytes "GET"
    → m.available ≡ true
    → checked_text p post ≡ ok t
    → valid_utf8 t ≡ true
    → (clipboard_text p cfg memory get (clipboard_text p cfg memory post m).1).0.0
      ≡ write_json 200 (text_reply cfg.device_name t)
unfolding read_clipboard store memory_write memory_read read_answer text_answer
roundtrip p cfg post get m t e₁ e₂ a c u =
    let good = checked_text-IsText p post t c in
    rw (clipboard_text-post p cfg memory post m e₁, c, a)
      (rw (clipboard_text-get p cfg memory get _ e₂) (ground arith))
