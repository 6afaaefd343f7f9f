-- ===== src/Testhost/Trace.antt =====
-- What the fixture shows, against what a test can tell from its requests and their answers.
use tailclip.Base.{
  ℕ, ◌≡◌, refl, ap, ◌∙◌, true, Option, none, some, List, [], ◌∷◌, ◌++◌, Bytes, bytes, same, arith,
  strip_prefix, if◌then◌else◌, if_intro, Result, ok, err, not, String, Option-cases, inl, inr,
}
use tailclip.Http.{Request, Parsers}
use tailclip.Clipboard.{Memory, memory, memory_read, memory_write}
use tailclip.Config.Settings.{Config}
use tailclip.Api
use tailclip.Api.{
  State, Reply, stored_reply, write_json, write_error, Options, security_headers, OwnerIdentity,
  Refusal,
}
use tailclip.Api.Refusals.{rate_limited, get_or_post_only}
use tailclip.Api.RateLimit.{allow}
use tailclip.Api.Identity.{authorize}
use tailclip.Api.Handlers.{
  checked_text, clipboard_text, store, Reject, refused, stored_answer, serve, status, protected,
  judged, finish, Answer, read_clipboard, read_answer, text_answer, write_clipboard, health,
}
use tailclip.Testhost.{
  Host, api_answer, fixture_answer, fixture_path, fixture_limit, api_prefix, line_of, show_fixture,
  not_found, fixture, serve_api, set_fixture, note_request, new_host, fixture_config,
  fixture_options,
}
use tailclip.Testhost

-- The text after a request to the API: the one that was sent, if the answer says that it is stored.
text_after : Reply → Result Reject Bytes → Bytes → Bytes
text_after (stored_reply name n) (ok t) old = t
text_after _ _ old = old

-- The clipboard after a call that answers with a reply, as `text_after` tells it.
abbrev Follows : Result Reject Bytes → Memory → Reply → Memory → Type 0
Follows w m reply m' = (m'.available ≡ m.available) × (m'.text ≡ text_after reply w m.text)

module _ (p : Parsers) (cfg : Config) (r : Request) (m : Memory) where
  abbrev Answered : Result Reject Bytes → Answer × Memory → Type 0
  Answered w x = Follows w m x.0.0.reply x.1

  refused-Follows : (w : Result Reject Bytes) (f : Reject) → Answered w (refused f, m)
  unfolding refused text_after write_json write_error
  refused-Follows w f = ground arith

  store-Follows : (w : Result Reject Bytes) → Answered w (store cfg memory r m w)
  unfolding store text_after refused stored_answer memory_write write_json write_error
  store-Follows (err f) = ground arith
  store-Follows (ok t) = ground arith

  read_clipboard-Follows : (w : Result Reject Bytes) → Answered w (read_clipboard cfg memory r m)
  unfolding read_clipboard memory_read read_answer text_answer refused write_json write_error
      text_after
  read_clipboard-Follows w = ground arith

  status-Follows : (w : Result Reject Bytes) → Answered w (status cfg memory r m)
  unfolding status refused write_json write_error text_after
  status-Follows w = ground arith

  clipboard_text-Follows : Answered (checked_text p r) (clipboard_text p cfg memory r m)
  unfolding clipboard_text write_clipboard
  clipboard_text-Follows =
      let w = checked_text p r in
      if_intro (Answered w) (same r.method (bytes "GET")) (read_clipboard-Follows w) (
        if_intro (Answered w) (same r.method (bytes "POST")) (store-Follows w)
          (refused-Follows w (get_or_post_only, 0)))

module _ (p : Parsers) (cfg : Config) (now : ℕ) (r : Request) (st : State Memory) where
  abbrev Served : Api.Response × State Memory → Type 0
  Served x = Follows (checked_text p r) st.desktop x.0.reply x.1.desktop

  judged-Follows :
      (next : Request → Memory → Answer × Memory) (v : Result Refusal (Unit {0}))
      → Answered p cfg r st.desktop (checked_text p r) (next r st.desktop)
      → Answered p cfg r st.desktop (checked_text p r) (judged next r st.desktop v)
  unfolding judged
  judged-Follows next (err f) h = refused-Follows p cfg r st.desktop (checked_text p r) (f, 0)
  judged-Follows next (ok _) h = h

  protected-Follows :
      (direction : String) (next : Request → Memory → Answer × Memory)
      → Answered p cfg r st.desktop (checked_text p r) (next r st.desktop)
      → Served (protected p cfg none direction next now r st)
  unfolding protected finish
  protected-Follows direction next h =
      if_intro (Answered p cfg r st.desktop (checked_text p r)) (not (allow now st.limiter).0)
        (refused-Follows p cfg r st.desktop (checked_text p r) (rate_limited, 0))
        (judged-Follows next (authorize p cfg none r) h)

  serve-Follows : Served (serve p cfg fixture_options now r st)
  unfolding serve text_after health write_json write_error same security_headers
  serve-Follows =
      let none_stored : Served (health none r, st) = ground arith in
      if_intro Served (same r.path (bytes "/v1/health")) none_stored (
        if_intro Served (same r.path (bytes "/v1/status"))
          (protected-Follows "status" (status cfg memory)
            (status-Follows p cfg r st.desktop (checked_text p r)))
          (if_intro Served (same r.path (bytes "/v1/clipboard/text"))
            (protected-Follows "clipboard" (clipboard_text p cfg memory)
              (clipboard_text-Follows p cfg r st.desktop))
            (refl, refl)))

-- What the host does, one thing at a time: a request to the fixture, or one to the API put into the
-- list or served. Any of these can come between the two that a request to the API takes.
pub data Event : Type 0 where
  asked : Request → Event
  noted : Request → Event
  answered : (now : ℕ) → Request → Event

-- A text and the requests, as the fixture shows them.
abbrev pub Seen : Type 0
Seen = Bytes × List Bytes

shown : Host → Seen
shown h = (h.api.desktop.text, h.requests)

abbrev answer_text : Testhost.Answer → Result Reject Bytes → Bytes → Bytes
answer_text (api_answer a) w old = text_after a.reply w old
answer_text _ w old = old

module _ (p : Parsers) (decode : ℕ → Request → Option Bytes) where
  -- Putting a request into the list has no answer of its own; `predict` does not look at the one here.
  pub step : Event → Host → Testhost.Answer × Host
  step (asked r) h = fixture p decode r h
  step (noted r) h = (not_found, note_request r h)
  step (answered now r) h = serve_api p decode now r h

  -- What an event does to the text and the list, as a test tells it that knows what it has sent, and
  -- what the API has answered.
  pub predict : Event → Testhost.Answer → Seen → Seen
  unfolding text_after
  predict (asked r) a (text, requests) =
      if same r.method (bytes "POST")
      then elim (decode fixture_limit r) [ none ↦ (text, requests) | some t ↦ (t, []) ]
      else (text, requests)
  predict (noted r) a (text, requests) = (text, requests ++ line_of r ∷ [])
  predict (answered now r) a (text, requests) = (answer_text a (checked_text p r) text, requests)

  pub run : List Event → Host → Host
  run [] h = h
  run (e ∷ es) h = run es (step e h).1

  pub predicted : List Event → Host → Seen → Seen
  unfolding predict
  predicted [] h seen = seen
  predicted (e ∷ es) h seen = let (a, h') = step e h in predicted es h' (predict e a seen)

  abbrev IsPredicted : Event → Host → Testhost.Answer × Host → Type 0
  IsPredicted e h (a, h') = (h'.api.desktop.available ≡ true) × (shown h' ≡ predict e a (shown h))

  fixture-IsPredicted :
      (r : Request) (h : Host)
      → h.api.desktop.available ≡ true
      → IsPredicted (asked r) h (fixture p decode r h)
  unfolding fixture set_fixture memory_write predict shown
  fixture-IsPredicted r h live = ground arith

  serve_api-IsPredicted :
      (now : ℕ) (r : Request) (h : Host)
      → h.api.desktop.available ≡ true
      → IsPredicted (answered now r) h (serve_api p decode now r h)
  unfolding serve_api predict shown checked_text tailclip.Http.read_body strip_prefix
  serve_api-IsPredicted now r h live = elim (Option-cases (strip_prefix api_prefix r.path)) [
    | inl e ↦ rw e (live, refl)
    | inr (path, e) ↦
        let (open_still, text) =
          serve-Follows p fixture_config now (record r { path = path }) h.api in
        rw e (open_still ∙ live, ap (λ (t : Bytes). (t, h.requests)) text)
  ]

  step-IsPredicted :
      (e : Event) (h : Host) → h.api.desktop.available ≡ true → IsPredicted e h (step e h)
  unfolding step note_request predict shown
  step-IsPredicted (asked r) h live = fixture-IsPredicted r h live
  step-IsPredicted (noted r) h live = (live, refl)
  step-IsPredicted (answered now r) h live = serve_api-IsPredicted now r h live

  show_fixture-shown :
      (h : Host)
      → h.api.desktop.available ≡ true
      → show_fixture h ≡ (let (text, requests) = shown h in fixture_answer text requests)
  unfolding show_fixture shown memory_read
  show_fixture-shown h live = ground arith

  run-shown :
      (es : List Event) (h : Host)
      → h.api.desktop.available ≡ true
      → ((run es h).api.desktop.available ≡ true) × (shown (run es h) ≡ predicted es h (shown h))
  unfolding run predicted
  run-shown [] h live = (live, refl)
  run-shown (e ∷ es) h live =
      let (live', told) = step-IsPredicted e h live in
      let (still, f) = run-shown es (step e h).1 live' in
      (still, f ∙ ap (predicted es (step e h).1) told)

  -- A request to the API is put into the list and is served later, and whatever else the host does
  -- may come between. In every order of these events the fixture shows what follows from them: the
  -- text is the last one that the fixture was given or the API said to have stored, and the list has
  -- the requests that were put into it since the fixture was last given a text.
  pub run-predicted :
      (es : List Event)
      → show_fixture (run es new_host)
        ≡ (let (text, requests) = predicted es new_host ([], []) in fixture_answer text requests)
  unfolding new_host shown Api.new_server
  run-predicted es =
      let (live, e) = run-shown es new_host refl in
      show_fixture-shown (run es new_host) live ∙ ap (λ seen. fixture_answer seen.0 seen.1) e
