-- ===== src/Tests/Log.antt =====
-- A log of ten bytes.
use tailclip.Base.{◌≡◌, refl, true, false, none, some, [], ◌∷◌, bytes}
use tailclip.Logging.{Writer, Faults, active, not_renamed, rotate}
use tailclip.Logging.Rotation.{write_all, rotate-write_all}

abbrev working : Faults
working = record {
  mkdir = false;
  stat = false;
  close = false;
  remove = false;
  rename = false;
  open_file = false;
  write = none;
}

abbrev log : Writer
log = record { max = 10; file = active; size = 8; current = some (bytes "12345678"); backup = none }

abbrev locked : Faults
locked = record working { rename = true }

rotate-write_all_example :
    write_all ((working, bytes "a") ∷ []) (rotate locked log).1 ≡ (rotate locked log).1
unfolding rotate
rotate-write_all_example =
    rotate-write_all locked log not_renamed ((working, bytes "a") ∷ []) refl refl
