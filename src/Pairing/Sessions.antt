-- ===== src/Pairing/Sessions.antt =====
-- What the manager's map holds, and how long.
use tailclip.Base.{
  ℕ, ltb, ◌+◌, ◌<◌, ◌≤◌, ◌≡◌, refl, ◌≢◌, Option, none, some, arith, Bytes, same_iff, if◌then◌else◌,
  Option-cases, Bool-cases, ok, inl, inr,
}
use tailclip.Base.Map.{
  get, put, delete, keep, Each, get-put, get-delete, get-keep, get-Each, put-Each, keep-Each,
  delete-Each, get-put_self,
}
use tailclip.Pairing.{
  Url, Data, Session, Manager, session_lifetime, live, validate_data, create, lookup,
}

module _ (parse_url : Bytes → Option Url) where
  -- A session stands under its own nonce, and its data passed the check.
  pub record IsGood (k : Bytes) (s : Session) : Type 0 where
    pub keyed : k ≡ s.nonce
    pub checked : validate_data parse_url s.contents ≡ ok tt

  abbrev pub IsValid : Manager → Type 0
  IsValid = Each IsGood

  pub create_ok :
      (now : ℕ) (raw : Option Bytes) (d : Data) (m m' : Manager) (s : Session)
      → create parse_url now raw d m ≡ ok (s, m')
      → (validate_data parse_url d ≡ ok tt)
        × (s.expires_at ≡ now + session_lifetime)
        × (s.contents ≡ d)
        × (m' ≡ put s.nonce s (keep (live now) m))
  unfolding create
  create_ok now none d m m' s h = ground arith
  create_ok now (some bits) d m m' s h = ground arith

  -- Every session that a manager holds has data that passed the check, and creating or looking up
  -- keeps it so.
  pub create-IsValid :
      (now : ℕ) (raw : Option Bytes) (d : Data) (m m' : Manager) (s : Session)
      → IsValid m
      → create parse_url now raw d m ≡ ok (s, m')
      → IsValid m'
  create-IsValid now raw d m m' s v h =
      let (good, _, same_data, e) = create_ok now raw d m m' s h in
      let checked : validate_data parse_url s.contents ≡ ok tt = rw same_data good in
      rw e (
        put-Each IsGood s.nonce s _ (record { keyed = refl; checked = checked })
          (keep-Each IsGood (live now) m v))

  lookup-IsValid :
      (now : ℕ) (nonce : Bytes) (m : Manager) → IsValid m → IsValid (lookup now nonce m).1
  unfolding lookup
  lookup-IsValid now nonce m v = elim (Option-cases (get nonce m)) [
    | inl e ↦ rw (e, lookup) v
    | inr (s, e) ↦ elim (Bool-cases (live now s)) [
      | inl t ↦ rw (e, t, lookup) v
      | inr t ↦ rw (e, t, lookup) (delete-Each IsGood nonce m v)
    ]
  ]

  -- Where every session stands under its own nonce with data that passed the check: what a lookup
  -- hands out has not expired, has the nonce that was asked for and such data, and nothing changes.
  pub lookup_sound :
      (now : ℕ) (nonce : Bytes) (m : Manager) (s : Session)
      → IsValid m
      → (lookup now nonce m).0 ≡ some s
      → (now < s.expires_at)
        × (s.nonce ≡ nonce)
        × (validate_data parse_url s.contents ≡ ok tt)
        × ((lookup now nonce m).1 ≡ m)
  unfolding lookup
  lookup_sound now nonce m s v h = elim (Option-cases (get nonce m)) [
    | inl e ↦ ground arith
    | inr (x, e) ↦
        let good = get-Each IsGood nonce m x v e in ground (arith, good.keyed, good.checked)
  ]

  -- A session is found again, with its data, until its fifteen minutes are over.
  pub lookup-create :
      (now later : ℕ) (raw : Option Bytes) (d : Data) (m m' : Manager) (s : Session)
      → create parse_url now raw d m ≡ ok (s, m')
      → lookup later s.nonce m'
        ≡ (if ltb later (now + session_lifetime) then (some s, m') else (none, delete s.nonce m'))
  unfolding lookup
  lookup-create now later raw d m m' s h =
      let (_, t, _, e) = create_ok now raw d m m' s h in
      rw e (ground (arith, get-put_self s.nonce s (keep (live now) m)))

  -- Creating a session keeps every other session that has not expired.
  pub get-create :
      (now : ℕ) (raw : Option Bytes) (d : Data) (m m' : Manager) (s old : Session) (k : Bytes)
      → create parse_url now raw d m ≡ ok (s, m')
      → k ≢ s.nonce
      → get k m ≡ some old
      → now < old.expires_at
      → get k m' ≡ some old
  get-create now raw d m m' s old k h other was alive =
      let (_, _, _, e) = create_ok now raw d m m' s h in
      rw e (
        ground (
          arith,
          get-put s.nonce k s (keep (live now) m),
          same_iff s.nonce k,
          get-keep (live now) k m old was,
        ))

-- A session that has expired is forgotten by the lookup that finds it so.
lookup_expired :
    (now : ℕ) (nonce : Bytes) (m : Manager) (s : Session)
    → get nonce m ≡ some s
    → s.expires_at ≤ now
    → ((lookup now nonce m).0 ≡ none) × (get nonce (lookup now nonce m).1 ≡ none)
unfolding lookup
lookup_expired now nonce m s e t = ground (arith, get-delete nonce nonce m, same_iff nonce nonce)
