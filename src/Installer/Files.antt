-- ===== src/Installer/Files.antt =====
-- cmd/tailblink/platform_windows.go: `installWindowsFiles`, which installs the companion of
-- Tunnel.antt and then the program itself, and `defaultWindowsInstaller`, the steps' parts.
use tailclip.Base.{
  ◌≡◌, ◌⊎◌, refl, inl, inr, Bool, true, false, not, Option, none, some, Bytes, bytes, same, Result,
  ok, err, [],
}
use tailclip.Config.Settings.{Config, ConfigError, mode}
use tailclip.Base.Map.{get}
use tailclip.Tunnel
use tailclip.Tunnel.{
  TunnelError, Manifest, Binary, Disk, Calls, current_binary, verify, join, install_companion,
}
use tailclip.Tunnel.Install
use tailclip.Tunnel.Install.{install_companion-Outcome}
use tailclip.Installer.{InstallError, system}
use tailclip.Installer.Copy
use tailclip.Installer.Copy.{
  Files, Faults, CopyError, both_same, copy_executable, copy_executable-Outcome,
}
use tailclip.Installer.Steps.{Installer, Steps, run, finish, prepare}

pub data FilesError : Type 0 where
  companion_failed : TunnelError → FilesError
  copy_failed : CopyError → FilesError

abbrev pub Installed : Type 0
Installed = Result FilesError (Unit {0}) × Disk × Files

module _ (digest : Bytes → Bytes) (manifest : Manifest) (platform : Bytes) where
  copied : Disk → Copy.Done × Files → Installed
  copied d (ok _, f) = (ok tt, d, f)
  copied d (err e, f) = (err (copy_failed e), d, f)

  -- The directories are those of the two paths.
  and_then_copy : Faults → Files → Tunnel.Done × Disk → Installed
  unfolding copied
  and_then_copy faults f (err e, d) = (err (companion_failed e), d, f)
  and_then_copy faults f (ok _, d) = copied d (copy_executable digest faults f)

  unfoldable pub install_windows_files :
      Calls → Faults → (source_dir target_dir : Bytes) → Disk → Files → Installed
  unfolding and_then_copy
  install_windows_files c faults source_dir target_dir d f =
      and_then_copy faults f (install_companion digest manifest platform c source_dir target_dir d)

  -- What an installation of both leaves, of the companion at its path and of the program's files.
  abbrev pub FilesOutcome : Faults → Bytes → Disk → Files → Installed → Type 0
  FilesOutcome faults target d f (ok _, d', f') =
      (verify digest manifest platform target d' ≡ ok tt)
      × ((f'.target ≡ f.source) ⊎ (both_same digest f.source f'.target ≡ true))
  FilesOutcome faults target d f (err (companion_failed e), d', f') =
      (get target d' ≡ get target d) × (f' ≡ f)
  FilesOutcome faults target d f (err (copy_failed e), d', f') =
      (verify digest manifest platform target d' ≡ ok tt)
      × ((f'.target ≡ f.target)
          ⊎ ((faults.roll_back ≡ true) × (f'.target ≡ none) × (f'.old ≡ f.target)))

  copied-Outcome :
      (faults : Faults) (target : Bytes) (d d' : Disk) (f : Files) (r : Copy.Done × Files)
      → verify digest manifest platform target d' ≡ ok tt
      → Copy.Outcome digest faults f r
      → FilesOutcome faults target d f (copied d' r)
  unfolding copied
  copied-Outcome faults target d d' f (ok _, f') good o = (good, o)
  copied-Outcome faults target d d' f (err e, f') good (inl kept) = (good, inl kept)
  copied-Outcome faults target d d' f (err e, f') good (inr (_, failed, gone, old)) =
      (good, inr (failed, gone, old))

  and_then_copy-Outcome :
      (faults : Faults) (target : Bytes) (d : Disk) (f : Files) (r : Tunnel.Done × Disk)
      → Install.Outcome digest manifest platform target d r
      → FilesOutcome faults target d f (and_then_copy faults f r)
  unfolding and_then_copy
  and_then_copy-Outcome faults target d f (err e, d') o = (o, refl)
  and_then_copy-Outcome faults target d f (ok _, d') o =
      copied-Outcome faults target d d' f (copy_executable digest faults f) o
        (copy_executable-Outcome digest faults f)

  -- The program is only touched once its companion is in place. Whatever fails: an installation that
  -- reports success leaves a companion with the pinned digest and the new program, or one of the
  -- same digest; one that fails at the companion leaves what was in the companion's place, and every
  -- file of the program; one that fails at the program leaves a companion with the pinned digest,
  -- and the installed program where it was or, when putting it back failed too, under the name
  -- `.old`. The manifest names a companion for the platform, and the temporary file has another name
  -- than it.
  pub install_windows_files-Outcome :
      (c : Calls) (faults : Faults) (source_dir target_dir : Bytes) (b : Binary) (d : Disk)
      (f : Files)
      → current_binary manifest platform ≡ ok b
      → same c.temp_name (join target_dir b.filename) ≡ false
      → FilesOutcome faults
          (join target_dir b.filename)
          d
          f
          (install_windows_files c faults source_dir target_dir d f)
  unfolding install_windows_files
  install_windows_files-Outcome c faults source_dir target_dir b d f e h =
      and_then_copy-Outcome faults (join target_dir b.filename) d f
        (install_companion digest manifest platform c source_dir target_dir d)
        (install_companion-Outcome digest manifest platform c source_dir target_dir b d e h)

-- `skipTailscale`: the path of the settings, and what loading or creating them gives.
unfoldable pub skip_tailscale :
    Result ConfigError Bytes → (Bytes → Result ConfigError Config) → Result ConfigError Bool
skip_tailscale path load = elim path [
  | err e ↦ err e
  | ok p ↦ elim (load p) [ err e ↦ err e | ok cfg ↦ ok (not (same (mode cfg) (bytes "tailscale"))) ]
]

-- An error that no step looks into.
abbrev any_error {ℓ} : {E A : Type ℓ} → Result E A → Result InstallError A
any_error (ok a) = ok a
any_error (err e) = err system

-- `defaultWindowsInstaller`: the two fields that it makes itself; the others are functions of the
-- package, and answer as in `parts`.
unfoldable pub default_windows_installer :
    Result FilesError (Unit {0})
    → Result ConfigError Bytes
    → (Bytes → Result ConfigError Config)
    → (parts : Installer) → Installer
unfolding skip_tailscale
default_windows_installer files path load parts = record parts {
  copy_executable = any_error files;
  skip_tailscale = some (any_error (skip_tailscale path load));
}

-- `defaultAction`, `finishInstall` and `prepareTailnet`.
unfoldable pub default_action : Installer → Steps (Unit {0})
default_action i = run i

unfoldable pub finish_install : Installer → Steps (Unit {0})
finish_install i = finish i

unfoldable pub prepare_tailnet : Option Bytes → Installer → Steps (Unit {0})
prepare_tailnet none i = (err system, [])
prepare_tailnet (some executable) i = prepare i
