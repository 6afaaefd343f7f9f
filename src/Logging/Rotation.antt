-- ===== src/Logging/Rotation.antt =====
-- What the log keeps: its bound, its order, and what a failed rotation does to it.
use tailclip.Base.{
  ℕ, ◌≤◌, ◌≡◌, refl, ◌⊎◌, inl, inr, some, List, [], ◌∷◌, ◌++◌, arith, Bytes, length, ok, err,
  Option-cases,
}
use tailclip.Logging.{Writer, Faults, LogError, active, stale, rotate, append, write}

-- An open file has the size that the writer counts.
pub record IsSized (w : Writer) (s : Bytes) : Type 0 where
  pub is_active : w.file ≡ active
  pub holds : w.current ≡ some s
  pub counted : length s ≡ w.size

-- A record that is written stands whole at the end of the log, behind all that was there before, or
-- alone in a new file with all that was there before in the backup; and the file has at most the
-- bytes of the limit, unless it holds this record alone.
pub write_ok :
    (f : Faults) (contents s : Bytes) (w : Writer) (n : ℕ)
    → IsSized w s
    → (write f contents w).0 ≡ ok n
    → (n ≡ length contents)
      × (((write f contents w).1.current ≡ some (s ++ contents))
          ⊎ (((write f contents w).1.current ≡ some contents)
              × ((write f contents w).1.backup ≡ some s)))
      × (((write f contents w).1.size ≤ w.max) ⊎ ((write f contents w).1.size ≡ length contents))
unfolding write rotate append
write_ok f contents s w n v h = (
  ground (arith, v.is_active, v.holds),
  ground (arith, v.is_active, v.holds),
  ground (arith, v.is_active, v.holds, v.counted),
)

stuck : (f : Faults) (contents : Bytes) (w : Writer) → w.file ≡ stale → (write f contents w).1 ≡ w
unfolding write rotate append
stuck f contents w h = ground arith

pub write_all : List (Faults × Bytes) → Writer → Writer
write_all [] w = w
write_all ((f, contents) ∷ ts) w = write_all ts (write f contents w).1

write_all_stuck : (ts : List (Faults × Bytes)) (w : Writer) → w.file ≡ stale → write_all ts w ≡ w
unfolding write_all
write_all_stuck [] w h = refl
write_all_stuck ((f, contents) ∷ ts) w h =
    let e = stuck f contents w h in rw e (write_all_stuck ts w h)

rotate_err :
    (f : Faults) (w : Writer) (e : LogError)
    → w.file ≡ active
    → (rotate f w).0 ≡ err e
    → (rotate f w).1.file ≡ stale
unfolding rotate
rotate_err f w e h k = elim (Option-cases w.current) [
  | inl p ↦ ground arith
  | inr (s, p) ↦ ground arith
]

-- After a rotation of an open log that fails, nothing is ever logged again: no later write, whatever
-- it is and whether or not the calls work by then, changes the files or the writer.
pub rotate-write_all :
    (f : Faults) (w : Writer) (e : LogError) (ts : List (Faults × Bytes))
    → w.file ≡ active
    → (rotate f w).0 ≡ err e
    → write_all ts (rotate f w).1 ≡ (rotate f w).1
rotate-write_all f w e ts h k = write_all_stuck ts (rotate f w).1 (rotate_err f w e h k)
