-- ===== src/Tests/Storage.antt =====
-- The settings on concrete data.
use tailclip.Base.{
  ◌≡◌, ◌⊎◌, refl, same, subst, true, false, arith, Bool, Option, none, some, List, [], ◌∷◌, ◌++◌,
  Bytes, bytes, Result, ok, err,
}
use tailclip.Config.Settings.{
  Config, ConfigError, no_permission, no_write, validate, mode, rotate_token, rotate_token-validate,
}
use tailclip.Config.File.{Disk, save, load, load_or_create, fresh_config, device_name}
use tailclip.Config.Store.{Store, update, open_store}
use tailclip.Config.Restart.{RoundTrips, Update, fails_late, update_all, update_all-restart}
use tailclip.Config.Atomic.{Late, written, update_err, load_or_create_ok}
use tailclip.Agent.{with_mode}
use tailclip.Config.Base64.{encode}
use tailclip.Tests.{settings, zeros, codec, empty_disk, no_faults, store}

update_err_example :
    ((update codec (record no_faults { chmod_file = true }) (with_mode []) store).1.cfg ≡ store.cfg)
    × (((update codec (record no_faults { chmod_file = true }) (with_mode []) store).1.disk.content
          ≡ store.disk.content)
        ⊎ ((next : Config) × (with_mode [] store.cfg ≡ ok next)
            × Late codec
                (record no_faults { chmod_file = true })
                no_permission
                next
                (update codec
                  (record no_faults { chmod_file = true })
                  (with_mode [])
                  store).1.disk))
unfolding update save validate mode tailclip.Base.same tailclip.Base.trim_space
    tailclip.Base.contains_any tailclip.Config.Settings.valid_token tailclip.Config.Base64.decode
    tailclip.Config.Base64.decode_digit
update_err_example =
    update_err codec (record no_faults { chmod_file = true }) (with_mode []) store no_permission
      refl

abbrev first_settings : Config
first_settings = fresh_config (device_name none) (encode zeros)

abbrev started : Result ConfigError (Config × Bool) × Disk
started = load_or_create codec no_faults none (some zeros) empty_disk

load_or_create_ok_example :
    (validate first_settings ≡ ok tt)
    × ((true ≡ false)
        ⊎ ((started.1.content ≡ written codec first_settings)
            × (mode first_settings ≡ bytes "choose")
            × (empty_disk.content ≡ none)))
unfolding load_or_create load tailclip.Config.Settings.generate_token save validate same mode
    tailclip.Base.trim_space device_name tailclip.Base.trim_suffix tailclip.Base.strip_prefix
    tailclip.Base.contains_any tailclip.Config.Settings.valid_token tailclip.Config.Base64.decode
    encode tailclip.Config.Base64.encode_digit tailclip.Config.Base64.decode_digit
    tailclip.Base.contains_byte tailclip.Config.Base64.skip_breaks
    tailclip.Config.File.create_config tailclip.Config.File.ensure_json_eof
    tailclip.Config.File.or_create tailclip.Config.File.usable_name
load_or_create_ok_example =
    load_or_create_ok codec no_faults none (some zeros) empty_disk first_settings true refl

abbrev setting : Config → Result ConfigError Config
setting c = ok settings

-- A start that makes the settings, an update that fails, and one that succeeds.
abbrev history : List Update
history = (record no_faults { write = true }, setting) ∷ (no_faults, setting) ∷ []

abbrev first_store : Store
first_store = record {
  cfg = settings;
  disk = record empty_disk { content = some (bytes "settings" ++ b'\n' ∷ []) };
}

keeps : (c next : Config) → setting c ≡ ok next → RoundTrips codec next
unfolding same
keeps c next made = let e : settings ≡ next = ground arith in subst (RoundTrips codec) e refl

update_all-restart_example :
    ((load codec (update_all codec history first_store).disk).0
      ≡ ok (update_all codec history first_store).cfg)
    × (validate (update_all codec history first_store).cfg ≡ ok tt)
unfolding open_store load validate mode fails_late same tailclip.Config.File.load_or_create
    tailclip.Config.File.ensure_json_eof tailclip.Base.trim_space tailclip.Base.contains_any
    tailclip.Config.Settings.valid_token tailclip.Config.Base64.decode
    tailclip.Config.Base64.decode_digit
update_all-restart_example =
    update_all-restart codec refl no_faults none none first_store.disk first_store false history
      refl refl
      (
        refl,
        (λ c next held made. keeps c next made),
        (refl, (λ c next held made. keeps c next made), tt),
      )
