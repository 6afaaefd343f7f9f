-- ===== src/Simple/Pairing/Attempts.antt =====
-- Requests for pairing in a row: how often a ticket works, and how many of them are looked at.
use tailclip.Base.{
  ℕ, suc, ◌+◌, ◌-◌, ◌≤◌, ◌<◌, ◌≡◌, ◌≢◌, refl, ◌∙◌, Option, List, [], ◌∷◌, arith, Bytes, bytes,
  same_iff, if◌then◌else◌, ltb, ◌==◌,
}
use tailclip.Http.{Request}
use tailclip.Simple.{Service, set_credential}
use tailclip.Simple.Serve.{PairParsers, Response, pair, count_attempt, redeemable, redeem}
use tailclip.Api.RateLimit.{minute}
use tailclip.Simple.Pairing.{pair_ok, pair_refused}

-- A request for pairing: when it is served, the random bytes drawn for it, and what it sends.
abbrev pub Attempt : Type 0
Attempt = ℕ × Option Bytes × Request

abbrev pub AllPosts : ℕ → ℕ → List Attempt → Type 0
AllPosts a w [] = Unit {0}
AllPosts a w ((now, raw, r) ∷ ts) =
    ((r.method ≡ bytes "POST") × (a ≤ now) × (now < a + w)) × AllPosts a w ts

module _ (p : PairParsers) where
  abbrev pub after : Attempt → Service → Service
  after (now, raw, r) s = (pair p now raw r s).1

  abbrev pub answer : Attempt → Service → Response
  answer (now, raw, r) s = (pair p now raw r s).0

  pub attempt_all : List Attempt → Service → Service
  attempt_all [] s = s
  attempt_all (t ∷ ts) s = attempt_all ts (after t s)

  -- No attempt of the list is answered with 200.
  abbrev pub NoneAccepted : List Attempt → Service → Type 0
  NoneAccepted [] s = Unit {0}
  NoneAccepted (t ∷ ts) s = ((answer t s).status ≢ 200) × NoneAccepted ts (after t s)

  no_ticket :
      (now : ℕ) (raw : Option Bytes) (r : Request) (s : Service)
      → s.ticket ≡ []
      → (pair p now raw r s).0.status ≢ 200
  unfolding pair count_attempt redeemable
  no_ticket now raw r s e h = ground arith

  no_ticket_left :
      (ts : List Attempt) (s : Service)
      → s.ticket ≡ []
      → NoneAccepted ts s × ((attempt_all ts s).credential ≡ s.credential)
  unfolding attempt_all
  no_ticket_left [] s e = (tt, refl)
  no_ticket_left ((now, raw, r) ∷ ts) s e =
      let not_ok = no_ticket now raw r s e in
      let (_, same_credential, same_ticket, _) = pair_refused p now raw r s not_ok in
      let (later, same_later) = no_ticket_left ts (pair p now raw r s).1 (same_ticket ∙ e) in
      ((not_ok, later), same_later ∙ same_credential)

  -- A ticket works once: after a pairing that was answered with 200, of the requests for pairing that
  -- come next none is answered with 200, however many they are and whatever they send, and the
  -- credential that was handed out stays.
  pub pair_once :
      (now : ℕ) (raw : Option Bytes) (r : Request) (s : Service) (later : List Attempt)
      → (pair p now raw r s).0.status ≡ 200
      → NoneAccepted later (pair p now raw r s).1
        × ((attempt_all later (pair p now raw r s).1).credential
            ≡ (pair p now raw r s).1.credential)
  pair_once now raw r s later h =
      let (_, _, _, _, _, _, _, _, used) = pair_ok p now raw r s h in
      no_ticket_left later (pair p now raw r s).1 used

  -- How many of the attempts are looked at, and not stopped by the limit.
  pub looked_at : List Attempt → Service → ℕ
  looked_at [] s = 0
  looked_at (t ∷ ts) s =
      let rest = looked_at ts (after t s) in if (answer t s).status == 429 then rest else suc rest

  pair_count :
      (now : ℕ) (raw : Option Bytes) (r : Request) (s : Service)
      → r.method ≡ bytes "POST"
      → ((pair p now raw r s).1.attempts ≡ (count_attempt now s).attempts)
        × ((pair p now raw r s).1.attempt_window ≡ (count_attempt now s).attempt_window)
        × (((pair p now raw r s).0.status == 429) ≡ ltb 30 (count_attempt now s).attempts)
  unfolding pair redeem set_credential
  pair_count now raw r s e = ground (arith, same_iff r.method (bytes "POST"))

  looked_at-same_window :
      (a : ℕ) (ts : List Attempt) (s : Service)
      → a ≤ s.attempt_window
      → AllPosts a minute ts
      → looked_at ts s ≤ 30 - s.attempts
  unfolding looked_at count_attempt
  looked_at-same_window a [] s l h = omega arith
  looked_at-same_window a ((now, raw, r) ∷ ts) s l ((e, p₁, p₂), h) =
      ground (arith, pair_count now raw r s e, looked_at-same_window a ts (pair p now raw r s).1)

  looked_at-le :
      (a : ℕ) (ts : List Attempt) (s : Service)
      → AllPosts a minute ts
      → looked_at ts s ≤ (30 - s.attempts) + 30
  unfolding looked_at count_attempt
  looked_at-le a [] s h = omega arith
  looked_at-le a ((now, raw, r) ∷ ts) s ((e, p₁, p₂), h) = ground (
    arith,
    pair_count now raw r s e,
    looked_at-same_window a ts (pair p now raw r s).1,
    looked_at-le a ts (pair p now raw r s).1,
  )

  -- Of POST requests for pairing that all come within one minute at most sixty get past the limit,
  -- whatever they send, however many there are and whatever came before.
  pub looked_at-le-sixty :
      (a : ℕ) (ts : List Attempt) (s : Service) → AllPosts a minute ts → looked_at ts s ≤ 60
  looked_at-le-sixty a ts s h = omega (arith, looked_at-le a ts s h)
