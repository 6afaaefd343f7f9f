-- ===== src/Tests/Companion.antt =====
-- The companion program of a tunnel: installed, started, and read from.
use tailclip.Base.{
  leb, ℕ, ◌≡◌, ◌≤◌, refl, Bool, true, false, Option, none, some, List, [], ◌∷◌, ◌++◌, Bytes, bytes,
  arith, Result, ok, err, length, same, if◌then◌else◌,
}
use tailclip.Base.Map.{get}
use tailclip.Tunnel.{Binary, Calls, Disk, Manifest, Done, current_binary, install_companion, join}
use tailclip.Tunnel.Install.{Outcome, install_companion-Outcome}
use tailclip.Simple.Start.{valid_url}
use tailclip.Tunnel.Handover.{parsed, find_string-valid_url}
use tailclip.Tunnel.Output.{scheme, domain, UrlOutput, empty_output, write_all, find_string}
use tailclip.Tunnel.Output.Found.{IsValid, Sends, write_all-IsValid, write_all-find_string}
use tailclip.Tunnel.Process.{Answers, Wait, start_binary}
use tailclip.Tunnel.Process.Resources.{IsBalanced, start_binary-IsBalanced}

-- A digest that tells the contents of these tests apart.
abbrev pub digest : Bytes → Bytes
digest s = s

abbrev pub program : Binary
program = record { filename = bytes "cf"; sha256 = bytes "good" }

abbrev pub manifest : Manifest
manifest = some ((bytes "os", program) ∷ [])

-- The source is damaged between its check and the copy, and the copy is complete.
abbrev pub swapped : Calls
swapped = record {
  temp_name = bytes "d/.tmp";
  opened = some (bytes "bad");
  partial = [];
  mkdir = false;
  create_temp = false;
  chmod = false;
  copy = false;
  sync = false;
  close = false;
  rename = false;
  remove = false;
}

abbrev pub disk : Disk
disk = (bytes "s/cf", bytes "good") ∷ (bytes "d/cf", bytes "old") ∷ []

install_companion-Outcome_example :
    Outcome digest manifest
      (bytes "os")
      (bytes "d/cf")
      disk
      (install_companion digest manifest (bytes "os") swapped (bytes "s") (bytes "d") disk)
unfolding current_binary get same
install_companion-Outcome_example =
    install_companion-Outcome digest manifest (bytes "os") swapped (bytes "s") (bytes "d") program
      disk refl refl

-- The address comes in two pieces.
abbrev pieces : List Bytes
pieces = bytes "| https://quiet-river.trycloud" ∷ bytes "flare.com |" ∷ []

write_all-IsValid_example : IsValid (write_all empty_output pieces)
write_all-IsValid_example = write_all-IsValid pieces

write_all-find_string_example : Sends empty_output pieces
unfolding tailclip.Tunnel.Output.Found.printed find_string tailclip.Tunnel.Output.match_here
    tailclip.Base.strip_prefix tailclip.Tunnel.Output.label tailclip.Tunnel.Output.in_label
    tailclip.Tunnel.Output.is_word
write_all-find_string_example = write_all-find_string pieces (omega arith) refl

-- The process cannot be put into its job.
abbrev unmanaged : Answers
unmanaged = record {
  context_over = false;
  split = some (bytes "127.0.0.1", bytes "80");
  mkdir = some (bytes "/tmp/t");
  write_config = false;
  create_job = false;
  limit_job = false;
  start = false;
  open_process = false;
  assign = true;
  wait = Wait.exited;
}

abbrev variables : List Bytes
variables = bytes "PATH=/bin" ∷ bytes "Tunnel_Token=x" ∷ []

start_binary-IsBalanced_example :
    IsBalanced (start_binary unmanaged (bytes "127.0.0.1:80") variables)
start_binary-IsBalanced_example = start_binary-IsBalanced unmanaged (bytes "127.0.0.1:80") variables

abbrev printed : Bytes
printed = bytes "| https://quiet-river.trycloudflare.com |"

find_string-valid_url_example :
    (l : Bytes) × (bytes "https://quiet-river.trycloudflare.com" ≡ scheme ++ (l ++ domain))
    × (valid_url (parsed l) ≡ leb (length l) 63)
unfolding find_string tailclip.Tunnel.Output.match_here tailclip.Base.strip_prefix
    tailclip.Tunnel.Output.label tailclip.Tunnel.Output.in_label tailclip.Tunnel.Output.is_word
find_string-valid_url_example =
    find_string-valid_url printed (bytes "https://quiet-river.trycloudflare.com") refl
