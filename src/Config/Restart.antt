-- ===== src/Config/Restart.antt =====
-- What the next start of the program finds, over everything that the settings go through.
use tailclip.Base.{
  ◌≡◌, refl, ◌∙◌, ap, sym, ◌⊎◌, inl, inr, Bool, true, false, not, ◌&&◌, Option, none, some, List,
  [], ◌∷◌, ◌++◌, arith, Bytes, Result, ok, err, ◌>>=◌, ap₂, subst,
}
use tailclip.Config.Settings.{Config, ConfigError, unreadable, not_exist, validate, generate_token}
use tailclip.Config.Base64.{encode}
use tailclip.Config.File.{
  Codec, M, Disk, Faults, decode_config, ensure_json_eof, at_end, save, load, load_or_create,
  or_create, create_config, fresh_config, device_name,
}
use tailclip.Config.Store.{Store, opened, open_store, update, changed, saved}
use tailclip.Config.Atomic.{load-save, save_err, save-locked, load_ok, load-disk}

-- A change of the settings, and the calls that fail while it is saved.
abbrev pub Update : Type 0
Update = Faults × (Config → Result ConfigError Config)

-- The mode of the file that is already in place cannot be set.
unfoldable pub fails_late : Faults → Bool
fails_late f = f.chmod_file && not f.windows

module _ (codec : Codec) where
  -- JSON gives back what was encoded.
  abbrev pub RoundTrips : Config → Type 0
  RoundTrips c = codec.decode (codec.encode c ++ b'\n' ∷ []) ≡ some (c, b'\n' ∷ [])

  -- No update fails at its last call, and JSON gives back the settings that it makes of such.
  abbrev pub AreEarly : List Update → Type 0
  AreEarly [] = Unit {0}
  AreEarly ((f, change) ∷ us) =
      (fails_late f ≡ false)
      × ((c next : Config) → RoundTrips c → change c ≡ ok next → RoundTrips next)
      × AreEarly us

  pub update_all : List Update → Store → Store
  update_all [] s = s
  update_all ((f, change) ∷ us) s = update_all us (update codec f change s).1

module _ (codec : Codec) (ends : codec.rest (b'\n' ∷ []) ≡ at_end) where
  -- A start would load the settings that are in memory.
  abbrev IsCurrent : Store → Type 0
  IsCurrent s = (load codec s.disk).0 ≡ ok s.cfg

  save-content :
      (f : Faults) (c : Config) (d : Disk) (e : ConfigError)
      → fails_late f ≡ false
      → (save codec f c d).0 ≡ err e
      → (save codec f c d).1.content ≡ d.content
  unfolding fails_late
  save-content f c d e early h = ground (arith, save_err codec f c d e h)

  loaded : Bool → Option Bytes → Result ConfigError Config
  loaded true content = err unreadable
  loaded false none = err not_exist
  loaded false (some s) = decode_config codec s >>= λ decoded.
      ensure_json_eof codec decoded.1 >>= λ _. validate decoded.0 >>= λ _. ok decoded.0

  load-loaded : (d : Disk) → (load codec d).0 ≡ loaded d.locked d.content
  unfolding load loaded
  load-loaded d = ground arith

  load-same :
      (d d' : Disk)
      → d'.content ≡ d.content
      → d'.locked ≡ d.locked
      → (load codec d').0 ≡ (load codec d).0
  load-same d d' e l = load-loaded d' ∙ ap₂ loaded l e ∙ sym (load-loaded d)

  saved-IsCurrent :
      (s : Store) (next : Config) (r : Result ConfigError (Unit {0}) × Disk)
      → (r.0 ≡ ok tt → (load codec r.1).0 ≡ ok next)
      → ((e : ConfigError) → r.0 ≡ err e → (load codec r.1).0 ≡ ok s.cfg)
      → IsCurrent (saved codec s next r).1
  unfolding saved
  saved-IsCurrent s next (ok _, d) h k = h refl
  saved-IsCurrent s next (err e, d) h k = k e refl

  changed-IsCurrent :
      (f : Faults) (s : Store) (r : Result ConfigError Config)
      → fails_late f ≡ false
      → ((next : Config) → r ≡ ok next → RoundTrips codec next)
      → IsCurrent s
      → IsCurrent (changed codec f s r).1
  unfolding changed
  changed-IsCurrent f s (err e) early good now = now
  changed-IsCurrent f s (ok next) early good now =
      saved-IsCurrent s next (save codec f next s.disk)
        (load-save codec f next s.disk (load_ok codec s.disk s.cfg now).1 (good next refl) ends)
        λ x h.
          load-same s.disk (save codec f next s.disk).1 (save-content f next s.disk x early h)
            (save-locked codec f next s.disk)
          ∙ now

  saved-RoundTrips :
      (s : Store) (next : Config) (r : Result ConfigError (Unit {0}) × Disk)
      → RoundTrips codec s.cfg
      → RoundTrips codec next
      → RoundTrips codec (saved codec s next r).1.cfg
  unfolding saved
  saved-RoundTrips s next (ok _, d) h k = k
  saved-RoundTrips s next (err e, d) h k = h

  changed-RoundTrips :
      (f : Faults) (s : Store) (r : Result ConfigError Config)
      → RoundTrips codec s.cfg
      → ((next : Config) → r ≡ ok next → RoundTrips codec next)
      → RoundTrips codec (changed codec f s r).1.cfg
  unfolding changed
  changed-RoundTrips f s (err e) h good = h
  changed-RoundTrips f s (ok next) h good = saved-RoundTrips s next _ h (good next refl)

  update_all-IsCurrent :
      (us : List Update) (s : Store)
      → AreEarly codec us
      → RoundTrips codec s.cfg
      → IsCurrent s
      → IsCurrent (update_all codec us s)
  unfolding update_all update
  update_all-IsCurrent [] s early held now = now
  update_all-IsCurrent ((f, change) ∷ us) s (early, good, rest) held now =
      let makes : (next : Config) → change s.cfg ≡ ok next → RoundTrips codec next =
        λ next. good s.cfg next held in
      update_all-IsCurrent us (update codec f change s).1 rest
        (changed-RoundTrips f s (change s.cfg) held makes)
        (changed-IsCurrent f s (change s.cfg) early makes now)

  create_config-save :
      (f : Faults) (hostname : Option Bytes) (bits : Bytes) (d : Disk) (c : Config) (created : Bool)
      → (create_config codec f hostname (some bits) d).0 ≡ ok (c, created)
      → (c ≡ fresh_config (device_name hostname) (encode bits))
        × ((save codec f (fresh_config (device_name hostname) (encode bits)) d).0 ≡ ok tt)
        × ((create_config codec f hostname (some bits) d).1
            ≡ (save codec f (fresh_config (device_name hostname) (encode bits)) d).1)
  unfolding create_config generate_token
  create_config-save f hostname bits d c created h = ground arith

  created-loaded :
      (f : Faults) (hostname raw : Option Bytes) (d : Disk) (c : Config) (created : Bool)
      → d.locked ≡ false
      → RoundTrips codec c
      → (create_config codec f hostname raw d).0 ≡ ok (c, created)
      → (load codec (create_config codec f hostname raw d).1).0 ≡ ok c
  unfolding create_config generate_token
  created-loaded f hostname none d c created unlocked good h = cc
  created-loaded f hostname (some bits) d c created unlocked good h =
      let n = fresh_config (device_name hostname) (encode bits) in
      let (same_config, is_saved, disk) = create_config-save f hostname bits d c created h in
      ap (λ (x : Disk). (load codec x).0) disk
      ∙ load-save codec f n d unlocked (subst (RoundTrips codec) same_config good) ends is_saved
      ∙ ap ok (sym same_config)

  not_exist-unlocked : (d : Disk) → (load codec d).0 ≡ err not_exist → d.locked ≡ false
  unfolding load
  not_exist-unlocked d h = ground arith

  or_create-cases :
      (create : M (Config × Bool)) (r : Result ConfigError Config × Disk) (c : Config)
      (created : Bool)
      → (or_create codec create r).0 ≡ ok (c, created)
      → ((r.0 ≡ ok c) × ((or_create codec create r).1 ≡ r.1))
        ⊎ ((r.0 ≡ err not_exist) × (or_create codec create r ≡ create r.1))
  unfolding or_create
  or_create-cases create (ok cfg, d) c created h = inl (ground arith, refl)
  or_create-cases create (err not_exist, d) c created h = inr (refl, refl)
  or_create-cases create (err e, d) c created h = cc

  load_or_create-loaded :
      (f : Faults) (hostname raw : Option Bytes) (d : Disk) (c : Config) (created : Bool)
      → RoundTrips codec c
      → (load_or_create codec f hostname raw d).0 ≡ ok (c, created)
      → (load codec (load_or_create codec f hostname raw d).1).0 ≡ ok c
  unfolding load_or_create
  load_or_create-loaded f hostname raw d c created good h =
      let create = create_config codec f hostname raw in
      let disk = load-disk codec d in
      elim (or_create-cases create (load codec d) c created h) [
        | inl (found, same_disk) ↦ ap (λ (x : Disk). (load codec x).0) (same_disk ∙ disk) ∙ found
        | inr (missing, made) ↦
            let made' : load_or_create codec f hostname raw d ≡ create d = made ∙ ap create disk in
            ap (λ (x : Result ConfigError (Config × Bool) × Disk). (load codec x.1).0) made'
            ∙ created-loaded f hostname raw d c created (not_exist-unlocked d missing) good
                (sym (ap (λ (x : Result ConfigError (Config × Bool) × Disk). x.0) made') ∙ h)
      ]

  opened_ok :
      (r : Result ConfigError (Config × Bool) × Disk) (s : Store) (created : Bool)
      → (opened codec r).0 ≡ ok (s, created)
      → (r.0 ≡ ok (s.cfg, created)) × (r.1 ≡ s.disk)
  unfolding opened
  opened_ok (ok (c, b), d) s created h = ground arith
  opened_ok (err e, d) s created h = cc

  -- A restart finds the settings that were in memory: whatever the program starts with, and however
  -- many updates succeed or fail, whatever they change, a start that comes after would load exactly
  -- the settings that are in memory, and they are valid. No update fails at the last call, which sets
  -- the mode of the file that is already in place; JSON gives back the first settings, and those that an update makes of
  -- settings that it gives back.
  pub update_all-restart :
      (f : Faults) (hostname raw : Option Bytes) (d : Disk) (s : Store) (created : Bool)
      (us : List Update)
      → (open_store codec f hostname raw d).0 ≡ ok (s, created)
      → RoundTrips codec s.cfg
      → AreEarly codec us
      → ((load codec (update_all codec us s).disk).0 ≡ ok (update_all codec us s).cfg)
        × (validate (update_all codec us s).cfg ≡ ok tt)
  unfolding open_store
  update_all-restart f hostname raw d s created us h good early =
      let (found, disk) = opened_ok (load_or_create codec f hostname raw d) s created h in
      let current : IsCurrent s =
        sym (ap (λ (x : Disk). (load codec x).0) disk)
        ∙ load_or_create-loaded f hostname raw d s.cfg created good found in
      let now = update_all-IsCurrent us s early good current in
      (now, (load_ok codec (update_all codec us s).disk (update_all codec us s).cfg now).0)
