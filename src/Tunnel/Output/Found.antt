-- ===== src/Tunnel/Output/Found.antt =====
-- What the search in the program's output finds, however the output comes in pieces.
use tailclip.Base.{
  ℕ, zero, suc, ◌-◌, ◌≤◌, ◌≡◌, refl, sym, ap, ◌∙◌, subst, Bool, true, false, ◌&&◌, ◌||◌, none, some,
  List, [], ◌∷◌, ◌++◌, Bytes, arith, length, length-append, drop, strip_prefix, ◌==◌, if◌then◌else◌,
  is_some, Option-cases, append-nil, append_assoc, Bool-cases, inl, inr,
}
use tailclip.Tunnel.Output.{
  in_label, label, scheme, domain, match_here, find_string, UrlOutput, empty_output, trimmed, write,
  write_all,
}

-- An address of the service: one label of letters, digits and dashes in front of its domain.
unfoldable pub label_chars : Bytes → Bool
label_chars [] = true
label_chars (c ∷ s) = (in_label c || c == b'-') && label_chars s

abbrev pub IsTunnelUrl : Bytes → Type 0
IsTunnelUrl u = (l : Bytes) × (u ≡ scheme ++ (l ++ domain)) × (label_chars l ≡ true)

label-label_chars :
    (starting : Bool) (s l rest : Bytes) → label starting s ≡ some (l, rest) → label_chars l ≡ true
unfolding label label_chars
label-label_chars starting [] l rest h = cc
label-label_chars starting (c ∷ s) [] rest h = refl
label-label_chars starting (c ∷ s) (k ∷ l) rest h =
    ground (arith, label-label_chars (c == b'-') s l rest)

match_here-IsTunnelUrl : (s u : Bytes) → match_here s ≡ some u → IsTunnelUrl u
unfolding match_here
match_here-IsTunnelUrl s u h = elim (Option-cases (strip_prefix scheme s)) [
  | inl e ↦ ground arith
  | inr (t, e) ↦ elim (Option-cases (label true t)) [
    | inl f ↦ ground arith
    | inr ((l, v), f) ↦ (l, ground arith, label-label_chars true t l v f)
  ]
]

find_string-IsTunnelUrl : (s u : Bytes) → find_string s ≡ some u → IsTunnelUrl u
unfolding find_string
find_string-IsTunnelUrl [] u h = cc
find_string-IsTunnelUrl (c ∷ s) u h = elim (Option-cases (match_here (c ∷ s))) [
  | inl e ↦ find_string-IsTunnelUrl s u (ground arith)
  | inr (v, e) ↦ match_here-IsTunnelUrl (c ∷ s) u (ground arith)
]

abbrev AllUrls : List Bytes → Type 0
AllUrls [] = Unit
AllUrls (u ∷ us) = IsTunnelUrl u × AllUrls us

-- What a state keeps: a bounded buffer; one address at most, of the right form; an empty buffer once
-- it is sent.
pub record IsValid (w : UrlOutput) : Type 0 where
  pub bounded : length w.buffer ≤ 8192
  pub once : length w.found ≡ (if w.sent then 1 else 0)
  pub cleared : w.sent ≡ true → w.buffer ≡ []
  pub shaped : AllUrls w.found

length-drop : (n : ℕ) (s : Bytes) → length (drop n s) ≡ length s - n
length-drop zero s = omega arith
length-drop (suc n) [] = omega arith
length-drop (suc n) (c ∷ s) = omega (arith, length-drop n s)

trimmed-bounded : (s : Bytes) → length (trimmed s) ≤ 8192
unfolding trimmed
trimmed-bounded s = ground (arith, length-drop (length s - 4096) s)

module _ (w : UrlOutput) (b : Bytes) where
  write_sent : w.sent ≡ true → write w b ≡ w
  unfolding write
  write_sent h = ground arith

  write_none :
      w.sent ≡ false
      → find_string (w.buffer ++ b) ≡ none
      → write w b ≡ record { buffer = trimmed (w.buffer ++ b); sent = false; found = w.found }
  unfolding write
  write_none h e = ground arith

  write_some :
      (u : Bytes)
      → w.sent ≡ false
      → find_string (w.buffer ++ b) ≡ some u
      → write w b ≡ record { buffer = []; sent = true; found = u ∷ w.found }
  unfolding write
  write_some u h e = ground arith

  write-IsValid : IsValid w → IsValid (write w b)
  write-IsValid v =
      let once = v.once in
      elim (Bool-cases w.sent) [
        | inl h ↦ subst IsValid (sym (write_sent h)) v
        | inr h ↦ elim (Option-cases (find_string (w.buffer ++ b))) [
          | inl e ↦ subst IsValid (sym (write_none h e)) (record {
            bounded = trimmed-bounded (w.buffer ++ b);
            once = ground arith;
            cleared = λ k. cc;
            shaped = v.shaped;
          })
          | inr (u, e) ↦ subst IsValid (sym (write_some u h e)) (record {
            bounded = omega arith;
            once = ground arith;
            cleared = λ k. refl;
            shaped = (find_string-IsTunnelUrl (w.buffer ++ b) u e, v.shaped);
          })
        ]
      ]

write_all-keeps : (w : UrlOutput) (bs : List Bytes) → IsValid w → IsValid (write_all w bs)
unfolding write_all
write_all-keeps w [] v = v
write_all-keeps w (b ∷ bs) v = write_all-keeps (write w b) bs (write-IsValid w b v)

-- Whatever the program prints, and in whatever pieces: the buffer never holds more than 8192 bytes,
-- one address at most is sent, the buffer is empty once it is, and what is sent is an address of the
-- service: `https://`, a label of small letters, digits and dashes, and its domain.
pub write_all-IsValid : (bs : List Bytes) → IsValid (write_all empty_output bs)
write_all-IsValid bs =
    write_all-keeps empty_output bs
      (record { bounded = omega arith; once = refl; cleared = λ h. refl; shaped = tt })

unfoldable pub printed : List Bytes → Bytes
printed [] = []
printed (b ∷ bs) = b ++ printed bs

trimmed_short : (s : Bytes) → length s ≤ 8192 → trimmed s ≡ s
unfolding trimmed
trimmed_short s h = ground arith

write_all_sent : (w : UrlOutput) (bs : List Bytes) → w.sent ≡ true → write_all w bs ≡ w
unfolding write_all
write_all_sent w [] h = refl
write_all_sent w (b ∷ bs) h = ap (λ x. write_all x bs) (write_sent w b h) ∙ write_all_sent w bs h

-- The address that stands in the buffer with what the first pieces add is the one that is sent.
pub record Sends (w : UrlOutput) (bs : List Bytes) : Type 0 where
  pub first : List Bytes
  pub later : List Bytes
  pub url : Bytes
  pub pieces : bs ≡ first ++ later
  pub matched : find_string (w.buffer ++ printed first) ≡ some url
  pub found : (write_all w bs).found ≡ url ∷ w.found
  pub shaped : IsTunnelUrl url

write_all_finds :
    (w : UrlOutput) (bs : List Bytes)
    → w.sent ≡ false
    → find_string w.buffer ≡ none
    → length (w.buffer ++ printed bs) ≤ 8192
    → is_some (find_string (w.buffer ++ printed bs)) ≡ true
    → Sends w bs
unfolding write_all printed
write_all_finds w [] s n h e = absurd (ground (arith, append-nil w.buffer))
write_all_finds w (b ∷ bs) s n h e = elim (Option-cases (find_string (w.buffer ++ b))) [
  | inl f ↦
      let buffer = w.buffer ++ b in
      let v : UrlOutput = record { buffer = buffer; sent = false; found = w.found } in
      let assoc = append_assoc w.buffer b (printed bs) in
      let kept = trimmed_short buffer (ground (arith, assoc, length-append buffer (printed bs))) in
      let next : write w b ≡ v =
        write_none w b s f ∙ ap (λ c. record { buffer = c; sent = false; found = w.found }) kept in
      let rest =
        write_all_finds v bs refl f (subst (λ c. length c ≤ 8192) (sym assoc) h)
          (subst (λ c. is_some (find_string c) ≡ true) (sym assoc) e) in
      record {
        first = b ∷ rest.first;
        later = rest.later;
        url = rest.url;
        pieces = ap (λ l. b ∷ l) rest.pieces;
        matched =
            ap find_string (sym (append_assoc w.buffer b (printed rest.first))) ∙ rest.matched;
        found = ap (λ x. (write_all x bs).found) next ∙ rest.found;
        shaped = rest.shaped;
      }
  | inr (u, f) ↦
      let next = write_some w b u s f in
      record {
        first = b ∷ [];
        later = bs;
        url = u;
        pieces = refl;
        matched = ap (λ c. find_string (w.buffer ++ c)) (append-nil b) ∙ f;
        found = ap (λ x. x.found) (write_all_sent (write w b) bs (ap (λ x. x.sent) next) ∙ next);
        shaped = find_string-IsTunnelUrl (w.buffer ++ b) u f;
      }
]

-- However it comes in pieces: if all that the program prints has up to 8192 bytes, and the pattern
-- matches in it, then exactly one address is sent. It is the pattern's first match in what some of
-- the first pieces print, and has the form of an address of the service: `https://`, a label of small
-- letters, digits and dashes, and its domain.
pub write_all-find_string :
    (bs : List Bytes)
    → length (printed bs) ≤ 8192
    → is_some (find_string (printed bs)) ≡ true
    → Sends empty_output bs
unfolding find_string
write_all-find_string bs = write_all_finds empty_output bs refl refl
