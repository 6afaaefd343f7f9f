-- ===== src/Installer/Copy.antt =====
-- cmd/tailblink/platform_windows.go: `copyExecutable` and `sameFileContent`, over the four files that
-- they read and write. Each call of the system may fail, as the environment chooses; one that fails
-- changes nothing.
use tailclip.Base.{
  ◌≡◌, ◌⊎◌, Bool, true, false, not, ◌&&◌, Option, none, some, Bytes, arith, same, if◌then◌else◌,
  is_some, Result, ok, err,
}

-- What the files hold: the program to install, the installed one, and the installed one's path with
-- `.new` and with `.old` behind it.
pub record Files : Type 0 where
  pub source : Option Bytes
  pub target : Option Bytes
  pub new : Option Bytes
  pub old : Option Bytes

-- The failures: `true` fails. `read_source` is that of the comparison and
-- `open_source` that of the copy; `partial` is what a failed copy wrote; `read_target` and
-- `stat_target` are failures other than a missing file.
pub record Faults : Type 0 where
  pub mkdir : Bool
  pub read_source : Bool
  pub open_source : Bool
  pub open_new : Bool
  pub copy : Bool
  pub partial : Bytes
  pub sync : Bool
  pub close : Bool
  pub read_target : Bool
  pub stat_target : Bool
  pub remove_stale : Bool
  pub set_aside : Bool
  pub apply : Bool
  pub roll_back : Bool
  pub remove_new : Bool
  pub remove_old : Bool

pub data CopyError : Type 0 where
  no_directory unreadable not_prepared not_copied not_synced not_closed : CopyError
  not_set_aside not_applied : CopyError

abbrev pub Done : Type 0
Done = Result CopyError (Unit {0})

abbrev pub both_same : (Bytes → Bytes) → Option Bytes → Option Bytes → Bool
both_same digest (some a) (some b) = same (digest a) (digest b)
both_same digest _ _ = false

-- `sameFileContent`, where an error counts as a difference. `digest` is the SHA-256.
unfoldable pub same_file_content : (Bytes → Bytes) → Faults → Files → Bool
same_file_content digest f d =
    not f.read_source && not f.read_target && both_same digest d.source d.target

unfoldable pub remove_new : Faults → Files → Files
remove_new f d = if f.remove_new then d else record d { new = none }

unfoldable pub remove_old : Faults → Files → Files
remove_old f d = if f.remove_old then d else record d { old = none }

-- Putting the written file in its place; `aside`: the installed program was moved to `.old`.
unfoldable pub apply_new : Faults → (aside : Bool) → Files → Done × Files
unfolding remove_new remove_old
apply_new f aside d =
    let back = record d { target = d.old; old = none } in
    let restored = if (aside && not f.roll_back) then back else d in
    if f.apply
    then (err not_applied, remove_new f restored)
    else (ok tt, remove_old f (record d { target = d.new; new = none }))

unfoldable pub set_aside : Faults → Files → Done × Files
unfolding apply_new
set_aside f d =
    let cleared = if f.remove_stale then d else record d { old = none } in
    let moved = record cleared { old = d.target; target = none } in
    if (is_some d.target && not f.stat_target)
    then (if f.set_aside then (err not_set_aside, remove_new f cleared) else apply_new f true moved)
    else apply_new f false d

-- From the opened source on.
unfoldable pub write_new : Faults → Bytes → Files → Done × Files
unfolding set_aside
write_new f program d =
    let written = record d { new = some program } in
    if f.open_new
    then (err not_prepared, d)
    else if f.copy
    then (err not_copied, remove_new f (record d { new = some f.partial }))
    else if f.sync
    then (err not_synced, remove_new f written)
    else if f.close
    then (err not_closed, remove_new f written)
    else set_aside f written

opened : Faults → Files → Option Bytes
opened f d = if f.open_source then none else d.source

unfoldable pub copy_executable : (Bytes → Bytes) → Faults → Files → Done × Files
unfolding opened write_new same_file_content
copy_executable digest f d =
    if same_file_content digest f d
    then (ok tt, d)
    else if f.mkdir
    then (err no_directory, d)
    else elim (opened f d) [ none ↦ (err unreadable, d) | some program ↦ write_new f program d ]

-- What an update leaves. A failed one leaves the installed program, in its place or, where putting it
-- back failed too, under the name `.old`; a successful one leaves the new one, or one with its digest.
abbrev pub Outcome : (Bytes → Bytes) → Faults → Files → Done × Files → Type 0
Outcome digest f d (ok _, after) =
    (after.target ≡ d.source) ⊎ (both_same digest d.source after.target ≡ true)
Outcome digest f d (err e, after) =
    (after.target ≡ d.target)
    ⊎ ((e ≡ not_applied) × (f.roll_back ≡ true) × (after.target ≡ none) × (after.old ≡ d.target))

-- Whatever fails, an update that reports success leaves the new program in its place, or one of the
-- same digest; one that fails leaves the installed program where it was or, when the new one could
-- not be put in its place and the old one not put back, under the name `.old`.
pub copy_executable-Outcome :
    (digest : Bytes → Bytes) (f : Faults) (d : Files)
    → Outcome digest f d (copy_executable digest f d)
unfolding copy_executable
copy_executable-Outcome digest f d = ground arith
