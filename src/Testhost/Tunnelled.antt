-- ===== src/Testhost/Tunnelled.antt =====
-- shortcuts/simple-testhost/main.go: the host that the shortcuts of the simple entry are tested with,
-- through a real tunnel, over the clipboard of memory. The deferred closing of the entry comes in
-- every case but that of a start that is not reached.
use tailclip.Base.{
  ℕ, ◌++◌, true, not, Option, none, some, [], ◌∷◌, Bytes, bytes, same, if◌then◌else◌, Result, ok,
  err,
}
use tailclip.Http.{Request}
use tailclip.Clipboard.{Memory, new_memory, memory_read, memory_write}
use tailclip.Simple.{
  Service, Ticket, SimpleError, new_service, set_active, new_pairing, revoke, close,
}
use tailclip.Simple.Start.{Conditions, start}
use tailclip.Testhost.{fixture_limit, fixture_path}

-- The UTF-8 of 合成測試電腦.
abbrev synthetic_name : Bytes
synthetic_name =
    229 ∷ 144 ∷ 136 ∷ 230 ∷ 136 ∷ 144 ∷ 230 ∷ 184 ∷ 172 ∷ 232 ∷ 169 ∷ 166 ∷ 233 ∷ 155 ∷ 187 ∷ 232
    ∷ 133 ∷ 166 ∷ []

-- What the file of the state tells: the address of the local listener, and the pairing.
pub record Published : Type 0 where
  pub url : Bytes
  pub pairing : Ticket

-- `file` is `none` while the file is missing or cut off.
pub record Host : Type 0 where
  pub service : Service
  pub desktop : Memory
  pub address : Bytes
  pub file : Option Published

-- How `os.WriteFile` ends: written, not opened, or cut off.
pub data Writing : Type 0 where
  written not_opened cut_off : Writing

pub data HostError : Type 0 where
  simple_failed : SimpleError → HostError
  no_listener not_written : HostError

unfoldable pub put_file : Writing → Published → Host → Result HostError (Unit {0}) × Host
put_file written f h = (ok tt, record h { file = some f })
put_file not_opened f h = (err not_written, h)
put_file cut_off f h = (err not_written, record h { file = none })

write_pairing :
    Writing → Host → Result SimpleError (Ticket × Service) → Result HostError (Unit {0}) × Host
unfolding put_file
write_pairing w h (err e) = (err (simple_failed e), h)
write_pairing w h (ok (ticket, s)) =
    put_file w (record { url = bytes "http://" ++ h.address; pairing = ticket })
      (record h { service = s })

-- `writeState`, at a time, with a draw.
unfoldable pub write_state : ℕ → Option Bytes → Writing → Host → Result HostError (Unit {0}) × Host
unfolding write_pairing
write_state now bits w h = write_pairing w h (new_pairing now bits h.service)

-- The deferred calls: the entry is closed.
unfoldable pub closed : Host → Host
closed h = record h { service = (close h.service).0 }

-- From the opened listener on.
published : Result HostError (Unit {0}) × Host → Result HostError (Unit {0}) × Host
unfolding closed
published (err e, h) = (err e, closed h)
published (ok _, h) = (ok tt, h)

opened : Option Bytes → ℕ → Option Bytes → Writing → Service → Result HostError (Unit {0}) × Host
unfolding published closed
opened listener now bits w s =
    let h : Host = record { service = s; desktop = new_memory; address = []; file = none } in
    elim listener [
      | none ↦ (err no_listener, closed h)
      | some address ↦ published (write_state now bits w (record h { address = address }))
    ]

started :
    Option Bytes
    → ℕ
    → Option Bytes
    → Writing
    → Result SimpleError (Unit {0}) × Service
    → Result HostError (Unit {0}) × Host
unfolding opened closed
started listener now bits w (err e, s) = (
  err (simple_failed e),
  closed (record { service = s; desktop = new_memory; address = []; file = none }),
)
started listener now bits w (ok _, s) = opened listener now bits w (set_active true s)

-- `main` up to its serving.
unfoldable pub begin :
    Conditions → Option Bytes → ℕ → Option Bytes → Writing → Result HostError (Unit {0}) × Host
unfolding started
begin c listener now bits w = started listener now bits w (start c (new_service synthetic_name))

pub data Answer : Type 0 where
  fixture_answer : (text : Bytes) → Answer
  bad_format : Answer
  status_only : ℕ → Answer
  not_found : Answer

unfoldable pub show_fixture : Host → Answer
unfolding memory_read
show_fixture h =
    fixture_answer (elim (memory_read h.desktop) as (λ _. Bytes) [ ok text ↦ text | err e ↦ [] ])

module _ (decode : ℕ → Request → Option Bytes) where
  unfoldable pub fixture : Request → Host → Answer × Host
  fixture r h =
      if same r.method (bytes "POST")
      then elim (decode fixture_limit r) [
        | none ↦ (bad_format, h)
        | some text ↦
            let h' = record h { desktop = (memory_write text h.desktop).1 } in (show_fixture h', h')
      ]
      else (show_fixture h, h)

  repaired : Result HostError (Unit {0}) × Host → Answer × Host
  repaired (ok _, h) = (status_only 200, h)
  repaired (err e, h) = (status_only 500, h)

  unfoldable pub pairing : ℕ → Option Bytes → Writing → Request → Host → Answer × Host
  unfolding repaired
  pairing now bits w r h =
      if not (same r.method (bytes "POST"))
      then (status_only 405, h)
      else repaired (write_state now bits w h)

  -- An error of `Revoke` is not looked at.
  unfoldable pub revoked : Option Bytes → Request → Host → Answer × Host
  revoked bits r h = if not (same r.method (bytes "POST")) then (status_only 405, h) else (
    status_only 200,
    elim (revoke bits h.service) [ err e ↦ h | ok s ↦ record h { service = s } ],
  )

  -- The routes of the local multiplexer.
  unfoldable pub handle : ℕ → Option Bytes → Writing → Request → Host → Answer × Host
  handle now bits w r h =
      if same r.path fixture_path
      then fixture r h
      else if same r.path (bytes "/pairing")
      then pairing now bits w r h
      else if same r.path (bytes "/revoke")
      then revoked bits r h
      else (not_found, h)
