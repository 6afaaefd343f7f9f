-- ===== src/Agent/Run.antt =====
-- internal/agent/agent.go: `Run`, the life of the agent between its listener and its end, and
-- `classifySetupError`. The dashboard's host, which `Run` closes too, is in Webui.Dashboard. A call of `configureConnection` is one step, since it holds the lock `modeMu`.
use tailclip.Base.{
  ◌≡◌, Bool, true, false, not, Option, none, some, List, [], ◌∷◌, Bytes, bytes, arith, same,
  is_empty, if◌then◌else◌, Result, ok, err,
}
use tailclip.Config.File.{Codec}
use tailclip.Simple.{Service, clear, close}
use tailclip.Tailscale.{TailscaleError, not_installed, not_running}
use tailclip.Agent.{Agent, Surroundings, configure_connection, current_mode, on_entry}

abbrev pub listen_address : Bytes
listen_address = bytes "127.0.0.1:17733"

pub data RunError : Type 0 where
  not_loopback port_taken serve_failed : RunError

-- A call of `configureConnection`, by the goroutine that `Run` starts or by the dashboard.
abbrev pub Call : Type 0
Call = Surroundings × Bytes

-- `host_of` is what `net.SplitHostPort` gives for the host of an address. The calls are in the order
-- in which they get the lock; `closed` is whether the server ended because it was shut down.
pub record Life : Type 0 where
  pub address : Bytes
  pub host_of : Bytes → Option Bytes
  pub listens : Bool
  pub start : Surroundings
  pub calls : List Call
  pub closed : Bool

unfoldable pub is_fixed : Option Bytes → Bool
is_fixed none = false
is_fixed (some host) = same host (bytes "127.0.0.1")

module _ (codec : Codec) where
  unfoldable pub run_calls : List Call → Agent → Agent
  run_calls [] a = a
  run_calls ((w, action) ∷ cs) a = run_calls cs (configure_connection codec w action a).1

  -- The goroutine that continues the simple entry of the last session.
  unfoldable pub resume : Surroundings → Agent → Agent
  resume w a =
      let next = (configure_connection codec w (bytes "simple") a).1 in
      if same (current_mode a) (bytes "simple") then next else a

  -- The deferred call.
  unfoldable pub close_entry : Agent → Agent
  close_entry a = record a { entry = on_entry (λ s. (close s).0) a.entry }

  -- Where each call gets the lock before the end.
  unfoldable pub run : Life → Agent → Result RunError (Unit {0}) × Agent
  run l a =
      let address = if is_empty l.address then listen_address else l.address in
      let ended = close_entry (run_calls l.calls (resume l.start a)) in
      if not (is_fixed (l.host_of address))
      then (err not_loopback, a)
      else if not l.listens
      then (err port_taken, a)
      else (if l.closed then ok tt else err serve_failed, ended)

  -- No tunnel, no credential, nothing that answers.
  abbrev pub IsClosed : Option Service → Type 0
  IsClosed none = Unit
  IsClosed (some s) =
      (s.runtime ≡ none) × (s.active ≡ false) × (s.ready ≡ false) × (s.credential ≡ [])

  -- A run that ends by a shutdown listened on this computer only, and whatever was configured while
  -- it ran leaves no tunnel and no credential of the simple entry.
  pub run-IsClosed :
      (l : Life) (a : Agent)
      → (run l a).0 ≡ ok tt
      → (is_fixed (l.host_of (if is_empty l.address then listen_address else l.address)) ≡ true)
        × (l.listens ≡ true)
        × IsClosed (run l a).1.entry
  unfolding run close_entry close clear
  run-IsClosed l a h = ground arith

unfoldable pub classify_setup_error : TailscaleError → Bytes
classify_setup_error not_installed = bytes "tailscale_missing"
classify_setup_error not_running = bytes "tailscale_offline"
classify_setup_error _ = bytes "setup_unavailable"
