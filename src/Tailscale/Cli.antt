-- ===== src/Tailscale/Cli.antt =====
-- internal/tailscale/client.go: `FindCLI`, `New` and `commandRunner`, the search for the command.
use tailclip.Base.{
  ◌≡◌, ◌⊎◌, Bool, true, Option, none, some, List, [], ◌∷◌, ◌++◌, Bytes, bytes, arith, is_empty,
  if◌then◌else◌, Result, ok, err,
}
use tailclip.Tailscale.{TailscaleError, not_installed}

-- What the system says: `look_path` is the command on the path, `is_file` whether there is a file that
-- is no directory; the two variables may be empty.
pub record System : Type 0 where
  pub look_path : Option Bytes
  pub windows : Bool
  pub program_w6432 : Bytes
  pub program_files : Bytes
  pub is_file : Bytes → Bool

abbrev pub candidate : Bytes → Bytes
candidate base = base ++ bytes "\\Tailscale\\tailscale.exe"

unfoldable pub first_file : (Bytes → Bool) → List Bytes → Option Bytes
first_file is_file [] = none
first_file is_file (base ∷ bases) =
    let rest = first_file is_file bases in
    if is_empty base then rest else if is_file (candidate base) then some (candidate base) else rest

unfoldable pub find_cli : System → Result TailscaleError Bytes
unfolding first_file
find_cli s = elim s.look_path [
  | some path ↦ ok path
  | none ↦
      elim (if s.windows
        then first_file s.is_file (s.program_w6432 ∷ s.program_files ∷ [])
        else none) [ none ↦ err not_installed | some path ↦ ok path ]
]

-- The command is the one on the path, or a file of Tailscale's own folder; without either the error
-- says that it is not installed.
pub find_cli_sound :
    (s : System) (path : Bytes)
    → find_cli s ≡ ok path
    → (s.look_path ≡ some path)
      ⊎ ((s.look_path ≡ none) × (s.windows ≡ true) × (s.is_file path ≡ true))
unfolding find_cli first_file
find_cli_sound s path h = ground arith
