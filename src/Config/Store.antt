-- ===== src/Config/Store.antt =====
-- internal/config/config.go: `Store`, the settings that the API and the dashboard share. The store
-- and the disk that it writes to are one state; the mutex makes each call one step.
use tailclip.Base.{Option, Bytes, Result, ok, err, Bool}
use tailclip.Config.Settings.{Config, ConfigError, rotate_token}
use tailclip.Config.File.{Codec, Disk, Faults, load_or_create, save}

pub record Store : Type 0 where
  pub cfg : Config
  pub disk : Disk

abbrev pub snapshot : Store → Config
snapshot s = s.cfg

module _ (codec : Codec) where
  unfoldable pub opened :
      Result ConfigError (Config × Bool) × Disk → Result ConfigError (Store × Bool) × Disk
  opened (ok (cfg, created), d) = (ok (record { cfg = cfg; disk = d }, created), d)
  opened (err e, d) = (err e, d)

  unfoldable pub open_store :
      Faults → Option Bytes → Option Bytes → Disk → Result ConfigError (Store × Bool) × Disk
  unfolding opened
  open_store f hostname raw d = opened (load_or_create codec f hostname raw d)

  unfoldable pub saved :
      Store → Config → Result ConfigError (Unit {0}) × Disk → Result ConfigError (Unit {0}) × Store
  saved s next (ok _, d) = (ok tt, record { cfg = next; disk = d })
  saved s next (err e, d) = (err e, record s { disk = d })

  unfoldable pub changed :
      Faults → Store → Result ConfigError Config → Result ConfigError (Unit {0}) × Store
  changed f s (err e) = (err e, s)
  changed f s (ok next) = saved s next (save codec f next s.disk)

  unfoldable pub update :
      Faults → (Config → Result ConfigError Config) → Store → Result ConfigError (Unit {0}) × Store
  unfolding changed saved
  update f change s = changed f s (change s.cfg)

  unfoldable pub rotate : Faults → Option Bytes → Store → Result ConfigError (Unit {0}) × Store
  rotate f raw s = update f (rotate_token raw) s
