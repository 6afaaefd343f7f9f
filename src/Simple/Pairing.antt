-- ===== src/Simple/Pairing.antt =====
-- The ticket of a QR: who may redeem it, and what a new credential does to the old one.
pub mod Attempts
use tailclip.Base.{
  take_short, ℕ, suc, ◌+◌, ◌-◌, ◌≤◌, ◌<◌, ◌≡◌, ◌≢◌, refl, ap, ◌∙◌, sym, inl, inr, ◌↔◌, true, false,
  Option, none, some, List, [], ◌∷◌, arith, Bytes, bytes, length, same, same_iff, same_refl,
  is_empty, Option-cases, Bool-cases, ok, if◌then◌else◌, ltb, ◌==◌,
}
use tailclip.Config.Base64.{encode}
use tailclip.Http.{Request, values, get_header, first, bearer}
use tailclip.Simple.{Service, revoke, set_credential, base_url}
use tailclip.Simple.Serve.{
  PairParsers, PairInput, Response, paired_reply, pair, count_attempt, redeemable, redeem,
  authorized, pair_limit, within_limit,
}
use tailclip.Api.RateLimit.{minute}

only_header :
    (vs : List Bytes) (e : Bytes) → (length vs == 1) ≡ true → same (first vs) e ≡ true → vs ≡ e ∷ []
unfolding first
only_header [] e h k = cc
only_header (v ∷ []) e h k = ap (λ (x : Bytes). x ∷ []) ((same_iff v e).0 k)
only_header (v ∷ w ∷ vs) e h k = ground arith

authorized_sound :
    (s : Service) (r : Request)
    → authorized s r ≡ true
    → (s.paired ≡ true)
      × (is_empty s.credential ≡ false)
      × (values (bytes "Authorization") r.header ≡ bearer s.credential ∷ [])
unfolding authorized
authorized_sound s r h = (
  ground arith,
  ground arith,
  unfold get_header in
      only_header (values (bytes "Authorization") r.header) (bearer s.credential) (ground arith)
        (ground arith),
)

authorized_complete :
    (s : Service) (r : Request)
    → (s.paired ≡ true)
      × (is_empty s.credential ≡ false)
      × (values (bytes "Authorization") r.header ≡ bearer s.credential ∷ [])
    → authorized s r ≡ true
unfolding authorized get_header first
authorized_complete s r (paired, some_credential, sent) =
    rw (sent, paired, some_credential) (ground (arith, same_refl (bearer s.credential)))

-- Exactly the phone that was paired last is let in: the entry is paired, and the request has one
-- authorization header, which holds the current credential.
pub authorized_iff :
    (s : Service) (r : Request)
    → (authorized s r ≡ true) ↔ (
        (s.paired ≡ true)
        × (is_empty s.credential ≡ false)
        × (values (bytes "Authorization") r.header ≡ bearer s.credential ∷ []))
authorized_iff s r = (authorized_sound s r, authorized_complete s r)

pub within_limit_short : (s : Bytes) → length s ≤ pair_limit → within_limit s ≡ s
unfolding within_limit
within_limit_short s h = take_short pair_limit s h

module _ (p : PairParsers) where
  pair-ticket :
      (now : ℕ) (raw : Option Bytes) (r : Request) (s : Service)
      → (pair p now raw r s).0.status ≡ 200
      → (input : PairInput) × (rest : Bytes) × (p.decode_pair r.body ≡ some (input, rest))
        × (input.ticket ≡ s.ticket)
  unfolding pair count_attempt redeemable
  pair-ticket now raw r s h = elim (Option-cases (p.decode_pair (within_limit r.body))) [
    | inl e ↦ absurd (ground arith)
    | inr ((input, rest), e) ↦ (
      input,
      rest,
      ap p.decode_pair (sym (within_limit_short r.body (ground arith))) ∙ e,
      ground (arith, same_iff input.ticket s.ticket),
    )
  ]

  -- A pairing that is answered with 200 was asked for with the current ticket, in time; it hands out
  -- a new credential, which is the only one from then on, and uses the ticket up.
  pub pair_ok :
      (now : ℕ) (raw : Option Bytes) (r : Request) (s : Service)
      → (pair p now raw r s).0.status ≡ 200
      → (bits : Bytes) × (raw ≡ some bits)
        × ((input : PairInput) × (rest : Bytes) × (p.decode_pair r.body ≡ some (input, rest))
            × (input.ticket ≡ s.ticket))
        × (is_empty s.ticket ≡ false)
        × (now < s.expires)
        × ((pair p now raw r s).0.reply
            ≡ paired_reply (base_url s.host) (encode bits) s.device_name)
        × ((pair p now raw r s).1.paired ≡ true)
        × ((pair p now raw r s).1.credential ≡ encode bits)
        × ((pair p now raw r s).1.ticket ≡ [])
  unfolding pair count_attempt redeemable set_credential
  pair_ok now none r s h = absurd (ground arith)
  pair_ok now (some bits) r s h = (
    bits,
    refl,
    pair-ticket now (some bits) r s h,
    ground arith,
    ground arith,
    ground arith,
    ground arith,
    ground arith,
    ground arith,
  )

  -- Any other answer leaves the credential, the pairing and the ticket as they were.
  pub pair_refused :
      (now : ℕ) (raw : Option Bytes) (r : Request) (s : Service)
      → (pair p now raw r s).0.status ≢ 200
      → let s' = (pair p now raw r s).1 in
        (s'.paired ≡ s.paired)
        × (s'.credential ≡ s.credential)
        × (s'.ticket ≡ s.ticket)
        × (s'.expires ≡ s.expires)
  unfolding pair count_attempt redeemable set_credential
  pair_refused now raw r s h = ground arith

  -- The phone that was paired before, whose request carries the old credential and no other, is let in
  -- no more once another has been paired with a credential that differs from it.
  pub pair_replaces :
      (now : ℕ) (raw : Option Bytes) (r old : Request) (s : Service)
      → (pair p now raw r s).0.status ≡ 200
      → (pair p now raw r s).1.credential ≢ s.credential
      → values (bytes "Authorization") old.header ≡ bearer s.credential ∷ []
      → authorized (pair p now raw r s).1 old ≡ false
  pair_replaces now raw r old s h new sent =
      elim (Bool-cases (authorized (pair p now raw r s).1 old)) [
        | inl t ↦
            let (_, _, now_sent) = authorized_sound _ old t in
            absurd (new (cc (sym sent ∙ now_sent)))
        | inr t ↦ t
      ]

-- After a revocation that succeeds the entry lets nobody in and holds no ticket.
pub revoke_all :
    (raw : Option Bytes) (s s' : Service) (r : Request)
    → revoke raw s ≡ ok s'
    → (authorized s' r ≡ false) × (s'.ticket ≡ [])
unfolding revoke authorized
revoke_all none s s' r h = absurd (ground arith)
revoke_all (some bits) s s' r h = ground arith
