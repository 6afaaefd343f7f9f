-- ===== src/Installer/Backup.antt =====
-- cmd/tailblink/platform_windows.go: `removeExecutableBackup`, which tries for three seconds, since
-- the program that was replaced may still be running. Times are nanoseconds.
use tailclip.Base.{
  ℕ, zero, suc, ◌+◌, ◌-◌, ◌⊎◌, ◌*◌, ◌≤◌, ◌<◌, ◌≡◌, Bool, true, false, Option, none, some, arith,
  ltb, if◌then◌else◌,
}

abbrev pub millisecond : ℕ
millisecond = 1_000_000

abbrev pub patience : ℕ
patience = 3000 * millisecond

abbrev pub pause : ℕ
pause = 100 * millisecond

-- What `os.Remove` says; `missing` is `os.ErrNotExist`.
pub data Removal : Type 0 where
  removed missing held : Removal

-- What happens at the i-th try: the answer, how long it takes, and how much longer than the pause
-- the sleep behind it lasts.
pub record Tries : Type 0 where
  pub answer : ℕ → Removal
  pub takes : ℕ → ℕ
  pub oversleep : ℕ → ℕ

-- Whether the file is gone, after how many tries, and when.
pub record Ended : Type 0 where
  pub gone : Bool
  pub tries : ℕ
  pub at : ℕ

unfoldable pub is_held : Removal → Bool
is_held held = true
is_held _ = false

unfoldable pub remove_loop : ℕ → Tries → (deadline i now : ℕ) → Option Ended
remove_loop zero t deadline i now = none
remove_loop (suc fuel) t deadline i now =
    let later = now + t.takes i in
    let rest = remove_loop fuel t deadline (suc i) (later + pause + t.oversleep i) in
    elim (t.answer i) [
      | removed ↦ some (record { gone = true; tries = suc i; at = later })
      | missing ↦ some (record { gone = true; tries = suc i; at = later })
      | held ↦
          if ltb deadline later
          then some (record { gone = false; tries = suc i; at = later })
          else rest
    ]

-- After thirty pauses the three seconds are reached, and one more passes them.
abbrev pub rounds : ℕ
rounds = 32

unfoldable pub remove_executable_backup : Tries → ℕ → Option Ended
remove_executable_backup t start = remove_loop rounds t (start + patience) 0 start

-- The loop ended within so many tries: the last of them found the file gone, or more time than the
-- limit has passed.
abbrev pub Ends : ℕ → Tries → ℕ → Option Ended → Type 0
Ends most t deadline none = ⊥
Ends most t deadline (some e) =
    (e.tries ≤ most)
    × (((e.gone ≡ true) × (is_held (t.answer (e.tries - 1)) ≡ false))
        ⊎ ((e.gone ≡ false) × (deadline < e.at)))

-- One round more than the pauses that pass the deadline is enough.
remove_loop-Ends :
    (fuel : ℕ) (t : Tries) (deadline i now : ℕ)
    → deadline < now + fuel * pause
    → Ends (i + suc fuel) t deadline (remove_loop (suc fuel) t deadline i now)
unfolding remove_loop is_held
remove_loop-Ends zero t deadline i now h = ground arith
remove_loop-Ends (suc fuel) t deadline i now h =
    let woken : ℕ = now + t.takes i + pause + t.oversleep i in
    ground (arith, remove_loop-Ends fuel t deadline (suc i) woken (omega arith))

-- However long each try and each sleep lasts, the loop ends after 32 tries at the most: with the file
-- gone, or past its three seconds.
pub remove_executable_backup-Ends :
    (t : Tries) (start : ℕ) → Ends rounds t (start + patience) (remove_executable_backup t start)
unfolding remove_executable_backup
remove_executable_backup-Ends t start =
    remove_loop-Ends 31 t (start + patience) 0 start (omega arith)
