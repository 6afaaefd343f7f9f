-- ===== src/Config/Atomic.antt =====
-- What a failed save or update leaves behind.
use tailclip.Base.{
  ◌≡◌, ◌≢◌, refl, ◌⊎◌, inl, inr, Bool, true, false, Option, none, some, [], ◌∷◌, ◌++◌, arith, Bytes,
  Result, ok, err, Option-cases, bytes,
}
use tailclip.Config.Settings.{
  Config, ConfigError, no_permission, not_exist, validate, mode, generate_token,
}
use tailclip.Config.Base64.{encode}
use tailclip.Config.File.{
  Codec, Disk, Faults, at_end, save, load, load_or_create, create_config, fresh_config, device_name,
  ensure_json_eof,
}
use tailclip.Config.Store.{Store, changed, saved, update}

module _ (codec : Codec) where
  abbrev pub written : Config → Option Bytes
  written c = some (codec.encode c ++ b'\n' ∷ [])

  -- Of the calls of a save that count, only the last one failed: the one that sets the mode of the
  -- file in its place. On Windows no mode counts.
  pub record OnlyLate (f : Faults) : Type 0 where
    pub elsewhere : f.windows ≡ false
    pub chmod_file : f.chmod_file ≡ true
    pub mkdir : f.mkdir ≡ false
    pub chmod_dir : f.chmod_dir ≡ false
    pub create_temp : f.create_temp ≡ false
    pub chmod_temp : f.chmod_temp ≡ false
    pub write : f.write ≡ false
    pub sync : f.sync ≡ false
    pub close : f.close ≡ false
    pub replace : f.replace ≡ false

  -- Settings that are on the disk although an error is reported.
  abbrev pub Late : Faults → ConfigError → Config → Disk → Type 0
  Late f e c d = OnlyLate f × (e ≡ no_permission) × (validate c ≡ ok tt) × (d.content ≡ written c)

  pub save_ok :
      (f : Faults) (c : Config) (d : Disk)
      → (save codec f c d).0 ≡ ok tt
      → (validate c ≡ ok tt) × ((save codec f c d).1.content ≡ written c)
  unfolding save
  save_ok f c d h = ground arith

  pub save_err :
      (f : Faults) (c : Config) (d : Disk) (e : ConfigError)
      → (save codec f c d).0 ≡ err e
      → ((save codec f c d).1.content ≡ d.content) ⊎ Late f e c (save codec f c d).1
  unfolding save
  save_err f c d e h = ground arith

  save-temp :
      (f : Faults) (c : Config) (d : Disk) → d.temp ≡ none → (save codec f c d).1.temp ≡ none
  unfolding save
  save-temp f c d h = ground arith

  pub save-locked : (f : Faults) (c : Config) (d : Disk) → (save codec f c d).1.locked ≡ d.locked
  unfolding save
  save-locked f c d = ground arith

  changed_ok :
      (f : Faults) (s : Store) (r : Result ConfigError Config)
      → (changed codec f s r).0 ≡ ok tt
      → (r ≡ ok (changed codec f s r).1.cfg)
        × (validate (changed codec f s r).1.cfg ≡ ok tt)
        × ((changed codec f s r).1.disk.content ≡ written (changed codec f s r).1.cfg)
  unfolding changed saved
  changed_ok f s (ok next) h = ground (arith, save_ok f next s.disk)
  changed_ok f s (err e) h = cc

  changed_err :
      (f : Faults) (s : Store) (r : Result ConfigError Config) (e : ConfigError)
      → (changed codec f s r).0 ≡ err e
      → ((changed codec f s r).1.cfg ≡ s.cfg)
        × (((changed codec f s r).1.disk.content ≡ s.disk.content)
            ⊎ ((next : Config) × (r ≡ ok next) × Late f e next (changed codec f s r).1.disk))
  unfolding changed saved
  changed_err f s (ok next) e h = ground (arith, save_err f next s.disk e)
  changed_err f s (err x) e h = (refl, inl refl)

  -- An update that succeeds puts the same valid settings in memory and on the disk.
  pub update_ok :
      (f : Faults) (change : Config → Result ConfigError Config) (s : Store)
      → (update codec f change s).0 ≡ ok tt
      → (change s.cfg ≡ ok (update codec f change s).1.cfg)
        × (validate (update codec f change s).1.cfg ≡ ok tt)
        × ((update codec f change s).1.disk.content ≡ written (update codec f change s).1.cfg)
  unfolding update
  update_ok f change s h = changed_ok f s (change s.cfg) h

  -- An update that fails keeps the settings in memory. It keeps the file too, or the new settings are
  -- valid and in the file: this only where all calls of the save succeeded but the last, which sets
  -- the mode of the file in its place, and not on Windows.
  pub update_err :
      (f : Faults) (change : Config → Result ConfigError Config) (s : Store) (e : ConfigError)
      → (update codec f change s).0 ≡ err e
      → ((update codec f change s).1.cfg ≡ s.cfg)
        × (((update codec f change s).1.disk.content ≡ s.disk.content)
            ⊎ ((next : Config) × (change s.cfg ≡ ok next)
                × Late f e next (update codec f change s).1.disk))
  unfolding update
  update_err f change s e h = changed_err f s (change s.cfg) e h

  -- Settings that were saved are loaded again, where the file can be read and JSON gives back what
  -- was encoded.
  pub load-save :
      (f : Faults) (c : Config) (d : Disk)
      → d.locked ≡ false
      → codec.decode (codec.encode c ++ b'\n' ∷ []) ≡ some (c, b'\n' ∷ [])
      → codec.rest (b'\n' ∷ []) ≡ at_end
      → (save codec f c d).0 ≡ ok tt
      → (load codec (save codec f c d).1).0 ≡ ok c
  unfolding load ensure_json_eof
  load-save f c d l e r h = ground (arith, save_ok f c d h, save-locked f c d)

  validate-ne-not_exist : (c : Config) → validate c ≢ err not_exist
  unfolding validate
  validate-ne-not_exist c h = ground arith

  rest-ne-not_exist : (s : Bytes) → ensure_json_eof codec s ≢ err not_exist
  unfolding ensure_json_eof
  rest-ne-not_exist s h = ground arith

  -- A loaded configuration is valid, and reading changes nothing.
  pub load_ok :
      (d : Disk) (c : Config) → (load codec d).0 ≡ ok c → (validate c ≡ ok tt) × (d.locked ≡ false)
  unfolding load
  load_ok d c h = ground arith

  pub load-disk : (d : Disk) → (load codec d).1 ≡ d
  unfolding load
  load-disk d = ground arith

  pub load-ne-not_exist :
      (d : Disk) (s : Bytes) → d.content ≡ some s → (load codec d).0 ≢ err not_exist
  unfolding load
  load-ne-not_exist d s h = elim (Option-cases (codec.decode s)) [
    | inl e ↦ ground arith
    | inr (p, e) ↦ ground (arith, rest-ne-not_exist p.1, validate-ne-not_exist p.0)
  ]

  -- Settings that are there are never written over by a start, whether they can be used or not.
  pub load_or_create-keeps :
      (f : Faults) (hostname raw : Option Bytes) (d : Disk) (s : Bytes)
      → d.content ≡ some s
      → (load_or_create codec f hostname raw d).1 ≡ d
  unfolding load_or_create
  load_or_create-keeps f hostname raw d s h = ground (arith, load-ne-not_exist d s h, load-disk d)

  create_config_ok :
      (f : Faults) (hostname raw : Option Bytes) (d : Disk) (c : Config) (created : Bool)
      → (create_config codec f hostname raw d).0 ≡ ok (c, created)
      → (validate c ≡ ok tt)
        × ((create_config codec f hostname raw d).1.content ≡ written c)
        × (mode c ≡ bytes "choose")
  unfolding create_config mode generate_token
  create_config_ok f hostname none d c created h = cc
  create_config_ok f hostname (some raw) d c created h =
      ground (arith, save_ok f (fresh_config (device_name hostname) (encode raw)) d)

  -- Whatever a start hands over is valid. Settings that it made are on the disk, where there were
  -- none, and leave the choice of the connection open.
  pub load_or_create_ok :
      (f : Faults) (hostname raw : Option Bytes) (d : Disk) (c : Config) (created : Bool)
      → (load_or_create codec f hostname raw d).0 ≡ ok (c, created)
      → (validate c ≡ ok tt)
        × ((created ≡ false)
            ⊎ (((load_or_create codec f hostname raw d).1.content ≡ written c)
                × (mode c ≡ bytes "choose")
                × (d.content ≡ none)))
  unfolding load_or_create
  load_or_create_ok f hostname raw d c created h = elim (Option-cases d.content) [
    | inl e ↦ ground (
      arith,
      load_ok d c,
      load-disk d,
      create_config_ok f hostname raw (load codec d).1 c created,
    )
    | inr (s, e) ↦ ground (arith, load_ok d c, load-ne-not_exist d s e)
  ]
