-- ===== src/Installer.antt =====
-- cmd/tailblink/platform_windows.go: the installation on Windows. Here are the value of the registry
-- that starts the agent, and the literals of PowerShell; Copy puts the program in its place, Backup
-- removes the one that was there, Steps orders the steps.
pub mod Copy
pub mod Files
pub mod Backup
pub mod Steps
pub mod Programs
use tailclip.Base.{
  ℕ, zero, suc, ◌≡◌, ◌≢◌, refl, sym, ap, ◌∙◌, Bool, true, false, Option, none, some, [], ◌∷◌, ◌++◌,
  Bytes, bytes, arith, trim_space, ◌==◌, if◌then◌else◌, Result, ok, err, is_empty, Bool-cases,
  ==_iff, inl, inr,
}

pub data InstallError : Type 0 where
  not_installed not_running serve_conflict canceled deadline_exceeded : InstallError
  refused no_directory system : InstallError
  elevation_failed : (direct retry : InstallError) → InstallError
  serve_not_removed : InstallError → InstallError

abbrev pub Done : Type 0
Done = Result InstallError (Unit {0})

-- `windowsInstallPath`: the argument is the variable LOCALAPPDATA.
unfoldable pub windows_install_path : Bytes → Result InstallError Bytes
windows_install_path base =
    if is_empty base then err no_directory else ok (base ++ bytes "\\TailBlink\\TailBlink.exe")

-- `strings.ReplaceAll(value, "'", "''")`.
unfoldable pub power_shell_literal : Bytes → Bytes
power_shell_literal [] = []
power_shell_literal (c ∷ s) =
    let rest = power_shell_literal s in if c == b'\'' then b'\'' ∷ b'\'' ∷ rest else c ∷ rest

unfoldable pub elevated_script : (executable argument : Bytes) → Bytes
elevated_script executable argument =
    bytes "$p=Start-Process -FilePath '"
    ++ (power_shell_literal executable
        ++ (bytes "' -ArgumentList @('"
            ++ (power_shell_literal argument
                ++ bytes "') -Verb RunAs -Wait -PassThru; exit $p.ExitCode")))

unfoldable pub remove_script : Bytes → Bytes
remove_script directory =
    bytes "Start-Sleep -Seconds 1; Remove-Item -LiteralPath '"
    ++ (power_shell_literal directory ++ bytes "' -Recurse -Force")

-- How a single-quoted literal is read behind its first quote, where the quote of ASCII is the only
-- one: a doubled quote stands for one, and a single one ends it. The result has what follows.
unfoldable pub unquote : (after_quote : Bool) → Bytes → Option (Bytes × Bytes)
unquote false [] = none
unquote true [] = some ([], [])
unquote false (c ∷ s) =
    let next = unquote (c == b'\'') s in
    if c == b'\'' then next else elim next [ none ↦ none | some (v, r) ↦ some (c ∷ v, r) ]
unquote true (c ∷ s) =
    let next = unquote false s in
    if c == b'\''
    then elim next [ none ↦ none | some (v, r) ↦ some (c ∷ v, r) ]
    else some ([], c ∷ s)

-- A quoted value is read back as the value, whatever quotes of ASCII it has, and the script goes on
-- behind it.
pub unquote-power_shell_literal :
    (value rest : Bytes) (c : ℕ)
    → (c == b'\'') ≡ false
    → unquote false (power_shell_literal value ++ b'\'' ∷ c ∷ rest) ≡ some (value, c ∷ rest)
unfolding unquote power_shell_literal
unquote-power_shell_literal [] rest c h = ground arith
unquote-power_shell_literal (d ∷ s) rest c h =
    let later = unquote-power_shell_literal s rest c h in
    elim (Bool-cases (d == b'\'')) [
      | inl e ↦ rw (e, later) (ap (λ x. some (x ∷ s, c ∷ rest)) (sym ((==_iff d b'\'').0 e)))
      | inr e ↦ rw (e, e, later) refl
    ]

-- The key `Software\Microsoft\Windows\CurrentVersion\Run` of the user and its value `TailBlink`.
pub record Registry : Type 0 where
  pub key : Bool
  pub value : Option Bytes

-- Which calls fail, other than because there is no such key or value.
pub record RegistryFaults : Type 0 where
  pub open_key : Bool
  pub use_value : Bool

-- `escape` is `syscall.EscapeArg`, and `fold` is `strings.EqualFold`.
module _ (escape : Bytes → Bytes) (fold : Bytes → Bytes → Bool) where
  abbrev pub autostart_command : Bytes → Bytes
  autostart_command executable = escape executable ++ bytes " agent"

  unfoldable pub ensure_autostart : RegistryFaults → Bytes → Registry → Done × Registry
  ensure_autostart f executable r =
      if f.open_key
      then (err system, r)
      else if f.use_value
      then (err system, record r { key = true })
      else (ok tt, record { key = true; value = some (autostart_command executable) })

  unfoldable pub autostart_enabled : RegistryFaults → Bytes → Registry → Result InstallError Bool
  autostart_enabled f executable r =
      if f.open_key
      then err system
      else if r.key
      then (if f.use_value then err system else elim r.value [
        | none ↦ ok false
        | some v ↦ ok (fold (trim_space v) (autostart_command executable))
      ])
      else ok false

unfoldable pub remove_autostart : RegistryFaults → Registry → Done × Registry
remove_autostart f r =
    if f.open_key
    then (err system, r)
    else if r.key
    then (if f.use_value then (err system, r) else (ok tt, record r { value = none }))
    else (ok tt, r)

abbrev pub quiet : RegistryFaults
quiet = record { open_key = false; use_value = false }

-- A program that was entered without an error is found entered, where its command has no space
-- around it and is equal to itself.
pub autostart_enabled-ensure_autostart :
    (escape : Bytes → Bytes)
    → (fold : Bytes → Bytes → Bool) → (f : RegistryFaults) → (executable : Bytes) → (r : Registry)
    → fold (autostart_command escape fold executable) (autostart_command escape fold executable)
      ≡ true
    → trim_space (autostart_command escape fold executable)
      ≡ autostart_command escape fold executable
    → (ensure_autostart escape fold f executable r).0 ≡ ok tt
    → autostart_enabled escape fold quiet executable (ensure_autostart escape fold f executable r).1
      ≡ ok true
unfolding ensure_autostart autostart_enabled
autostart_enabled-ensure_autostart escape fold f executable r same trim h = ground arith

-- Nothing is found entered after a removal without an error.
pub autostart_enabled-remove_autostart :
    (escape : Bytes → Bytes)
    → (fold : Bytes → Bytes → Bool) → (f : RegistryFaults) → (executable : Bytes) → (r : Registry)
    → (remove_autostart f r).0 ≡ ok tt
    → autostart_enabled escape fold quiet executable (remove_autostart f r).1 ≡ ok false
unfolding remove_autostart autostart_enabled
autostart_enabled-remove_autostart escape fold f executable r h = ground arith
