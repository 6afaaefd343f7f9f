-- ===== src/Tunnel/Handover.antt =====
-- From the program's output to the simple entry: the address that `urlOutput` finds is the one that
-- `Start` of internal/simple/service.go checks.
use tailclip.Base.{
  ℕ, ◌≡◌, refl, ◌∙◌, Bool, true, false, not, ◌&&◌, ◌||◌, some, [], ◌∷◌, ◌++◌, Bytes, bytes, arith,
  length, reverse, leb, ◌==◌, Option-cases, inl, inr, has_suffix-append, trim_suffix-append,
  strip_prefix, and_true, same,
}
use mathlib.Core.List.{reverse_aux}
use tailclip.Simple.Start.{
  TunnelUrl, valid_url, valid_host, is_label, is_label_byte, are_label_bytes, starts_with_dash,
}
use tailclip.Tunnel.Output.{in_label, label, scheme, domain, match_here, find_string}

-- What the pattern asks of a label, behind a dash or at its start where `starting` is true.
well_formed : Bool → Bytes → Bool
well_formed starting [] = not starting
well_formed starting (c ∷ l) =
    (in_label c || (c == b'-' && not starting)) && well_formed (c == b'-') l

label-well_formed :
    (starting : Bool) (s l rest : Bytes)
    → label starting s ≡ some (l, rest)
    → well_formed starting l ≡ true
unfolding label well_formed
label-well_formed starting [] l rest h = cc
label-well_formed starting (c ∷ s) [] rest h = ground arith
label-well_formed starting (c ∷ s) (k ∷ l) rest h =
    ground (arith, label-well_formed (c == b'-') s l rest)

well_formed-are_label_bytes :
    (starting : Bool) (l : Bytes) → well_formed starting l ≡ true → are_label_bytes l ≡ true
unfolding well_formed are_label_bytes is_label_byte in_label
well_formed-are_label_bytes starting [] h = refl
well_formed-are_label_bytes starting (c ∷ l) h =
    ground (arith, well_formed-are_label_bytes (c == b'-') l)

-- What is reversed onto a text that starts with `c`.
well_formed-reverse_aux :
    (c : ℕ) (l onto : Bytes)
    → well_formed (c == b'-') l ≡ true
    → starts_with_dash (reverse_aux l (c ∷ onto)) ≡ false
unfolding well_formed starts_with_dash
well_formed-reverse_aux c [] onto h = ground arith
well_formed-reverse_aux c (d ∷ l) onto h =
    well_formed-reverse_aux d l (c ∷ onto)
      (and_true {a = in_label d || (d == b'-' && not (c == b'-'))} h).1

well_formed-reverse :
    (starting : Bool) (l : Bytes)
    → well_formed starting l ≡ true
    → starts_with_dash (reverse l) ≡ false
unfolding well_formed starts_with_dash
well_formed-reverse starting [] h = refl
well_formed-reverse starting (c ∷ l) h =
    well_formed-reverse_aux c l [] (and_true {a = in_label c || (c == b'-' && not starting)} h).1

well_formed-is_label : (l : Bytes) → well_formed true l ≡ true → is_label l ≡ leb (length l) 63
unfolding is_label well_formed starts_with_dash in_label
well_formed-is_label [] h = cc
well_formed-is_label (c ∷ l) h =
    ground (arith, well_formed-are_label_bytes true (c ∷ l) h, well_formed-reverse true (c ∷ l) h)

-- `url.Parse` of an address of the service.
abbrev pub parsed : Bytes → TunnelUrl
parsed l = record {
  scheme = bytes "https";
  host = l ++ domain;
  path = [];
  raw_query = [];
  has_user = false;
  fragment = [];
}

valid_url-parsed : (l : Bytes) → valid_url (parsed l) ≡ is_label l
unfolding valid_url valid_host same is_label
valid_url-parsed l = rw (has_suffix-append l domain, trim_suffix-append l domain) (ground arith)

abbrev Accepted : Bytes → Type 0
Accepted u =
    (l : Bytes) × (u ≡ scheme ++ (l ++ domain)) × (valid_url (parsed l) ≡ leb (length l) 63)

match_here-Accepted : (s u : Bytes) → match_here s ≡ some u → Accepted u
unfolding match_here
match_here-Accepted s u h = elim (Option-cases (strip_prefix scheme s)) [
  | inl e ↦ ground arith
  | inr (t, e) ↦ elim (Option-cases (label true t)) [
    | inl f ↦ ground arith
    | inr ((l, v), f) ↦ (
      l,
      ground arith,
      valid_url-parsed l ∙ well_formed-is_label l (label-well_formed true t l v f),
    )
  ]
]

-- An address that is found in the program's output is a label in front of the service's domain, and
-- `Start` accepts it, as `url.Parse` takes it apart, exactly if that label has 63 bytes at the
-- most.
pub find_string-valid_url :
    (s u : Bytes)
    → find_string s ≡ some u
    → (l : Bytes) × (u ≡ scheme ++ (l ++ domain)) × (valid_url (parsed l) ≡ leb (length l) 63)
unfolding find_string
find_string-valid_url [] u h = cc
find_string-valid_url (c ∷ s) u h = elim (Option-cases (match_here (c ∷ s))) [
  | inl e ↦ find_string-valid_url s u (ground arith)
  | inr (v, e) ↦ match_here-Accepted (c ∷ s) u (ground arith)
]
