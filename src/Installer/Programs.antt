-- ===== src/Installer/Programs.antt =====
-- cmd/tailblink/platform_windows.go: the programs that are started and the boxes that are shown, as
-- what they are called with.
use tailclip.Base.{
  ℕ, ◌≡◌, refl, Bool, true, false, ◌||◌, some, List, [], ◌∷◌, ◌++◌, Bytes, bytes, contains_byte,
  ◌==◌, if◌then◌else◌, Result, ok, err,
}
use tailclip.Installer.{
  InstallError, system, Done, power_shell_literal, elevated_script, remove_script, unquote,
  unquote-power_shell_literal,
}

pub record Command : Type 0 where
  pub program : Bytes
  pub arguments : List Bytes
  pub hidden : Bool
  pub no_window : Bool

abbrev shell : List Bytes → Command
shell arguments = record {
  program = bytes "powershell.exe";
  arguments = bytes "-NoLogo" ∷ bytes "-NoProfile" ∷ bytes "-NonInteractive" ∷ arguments;
  hidden = true;
  no_window = true;
}

abbrev worked : Bool → Done
worked b = if b then ok tt else err system

-- `call` runs a command and waits for it, `start` does not wait.
unfoldable pub run_elevated : (call : Command → Bool) → (executable argument : Bytes) → Done
run_elevated call executable argument =
    worked (call (shell (bytes "-Command" ∷ elevated_script executable argument ∷ [])))

unfoldable pub schedule_remove : (start : Command → Bool) → (directory : Bytes) → Done
schedule_remove start directory = worked (
    start (
      shell
        (bytes "-WindowStyle" ∷ bytes "Hidden" ∷ bytes "-Command" ∷ remove_script directory ∷ [])))

unfoldable pub start_detached : (start : Command → Bool) → Bytes → List Bytes → Done
start_detached start executable arguments = worked (
    start (record { program = executable; arguments = arguments; hidden = true; no_window = true }))

unfoldable pub open_url : (start : Command → Bool) → Bytes → Done
open_url start url = worked (
    start (record {
      program = bytes "rundll32.exe";
      arguments = bytes "url.dll,FileProtocolHandler" ∷ url ∷ [];
      hidden = true;
      no_window = false;
    }))

abbrev pub id_yes : ℕ
id_yes = 6

-- `show` is `MessageBoxW`, 0 on an error; a text with a NUL is refused before it.
unfoldable pub message : (show : Bytes → Bytes → ℕ) → (title text : Bytes) → Result InstallError ℕ
message show title text =
    if contains_byte 0 title || contains_byte 0 text
    then err system
    else if show title text == 0
    then err system
    else ok (show title text)

-- `question` is the text around the name.
unfoldable pub confirm_https :
    (show : Bytes → Bytes → ℕ)
    → (title : Bytes) → (question : Bytes → Bytes) → (dns_name : Bytes) → Result InstallError Bool
unfolding message
confirm_https show title question dns_name = elim (message show title (question dns_name)) [
  | err e ↦ err e
  | ok result ↦ ok (result == id_yes)
]

abbrev open_quote : Bytes
open_quote = bytes "$p=Start-Process -FilePath '"

abbrev end : Bytes
end = bytes ") -Verb RunAs -Wait -PassThru; exit $p.ExitCode"

-- The script behind the literal of the file, and behind the quote that opens the argument's.
abbrev second_part : Bytes → Bytes
second_part argument = power_shell_literal argument ++ b'\'' ∷ end

abbrev middle : Bytes → Bytes
middle argument = bytes " -ArgumentList @('" ++ second_part argument

-- How the shell reads the script: the literals of its file and of the file's argument.
abbrev pub Reads : (script executable argument : Bytes) → Type 0
Reads script executable argument =
    (rest : Bytes) × (script ≡ open_quote ++ rest)
    × (unquote false rest ≡ some (executable, middle argument))
    × (unquote false (second_part argument) ≡ some (argument, end))

-- The script that asks for an administrator's rights opens with the literal of the program and goes
-- on with that of its argument: read as literals in which the quote of ASCII is the only quote,
-- they give the program and the argument that the script is made from, whatever quotes of ASCII
-- these have.
pub elevated_script-Reads :
    (executable argument : Bytes) → Reads (elevated_script executable argument) executable argument
unfolding elevated_script
elevated_script-Reads executable argument = (
  power_shell_literal executable ++ b'\'' ∷ middle argument,
  refl,
  unquote-power_shell_literal executable (bytes "-ArgumentList @('" ++ second_part argument) b' '
      refl,
  unquote-power_shell_literal argument (bytes " -Verb RunAs -Wait -PassThru; exit $p.ExitCode") b')'
      refl,
)
