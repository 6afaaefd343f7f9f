-- ===== src/Lib.antt =====
-- Models of TailBlink, a desktop agent that lets a phone read and write the computer's clipboard,
-- through Tailscale or through a temporary public tunnel (the "simple entry").
--
-- The parts and how they interact:
--   * Base: byte strings (a Go string is a list of bytes), Go's maps as association lists,
--     UTF-8 and the functions of `strings` that the code calls, a value-or-error sum.
--   * Config (internal/config/config.go): Base64 has the standard library's alphabet and
--     decoder, Settings the configuration and its check, File the loading and saving over a
--     disk on which each system call may fail, Store the shared settings, Atomic what a failed
--     save leaves behind, Restart what the next start finds, Paths where the settings and the
--     log are, Replace the replacement of a file on Windows.
--   * Clipboard (internal/clipboard/clipboard.go and native_session.go): the interface, the
--     lock, the memory backend, and Session, one transaction with the desktop and the retries
--     of its opening. Laws states what a backend keeps whose writes take effect or do nothing,
--     such as that of memory; that of Windows is not such a one. Windows (backend_windows.go) writes and reads over the answers of the
--     Win32 calls, with Utf16 for Go's conversions; Ownership is about its block of memory,
--     Reading about a text that comes back. Linux (backend_linux.go) uses the commands wl-copy
--     and wl-paste, Unsupported (backend_unsupported.go) has no clipboard.
--   * Http: what the handlers read of a request. `net.SplitHostPort`, `net.ParseIP`,
--     `mime.ParseMediaType`, `mime.WordDecoder` and `encoding/json` are parameters.
--   * Api (internal/api/server.go and identity.go): RateLimit, Identity (who may use the
--     clipboard), Refusals, Handlers; Access, Protected and Transfer are about who gets
--     through, what the others get, and what happens to the text.
--   * Pairing (internal/pairing/manager.go): the sessions behind the QR of the Tailscale entry.
--   * Simple (internal/simple/service.go and page.go): the simple entry's state, Start with its
--     phases, Serve with its requests, which end in the API's handler; Pairing about tickets
--     and credentials, its Attempts about many requests for one, Interleaving about every order
--     in which phases, requests and calls can come, Phone about the session of a phone from its
--     ticket to the clipboard.
--   * Tailscale (internal/tailscale/client.go): the client of the command `tailscale`, over a
--     runner with a state of its own; Cli searches for the command.
--   * Webui (internal/webui/webui.go and dashboard_host.go): the public setup pages and, in
--     Dashboard, the host of the local dashboard; Guards about who can do what with them;
--     Paths the paths of the setup pages, Rendering what the dashboard's template is filled with.
--   * Logging (internal/logging/logging.go): the writer that rotates the log file.
--   * Agent (internal/agent/agent.go): the state that joins the parts and
--     `configureConnection`; Modes about the mode that it stores, Dashboard with the data of
--     the dashboard, Routes with the HTTP handler, Entries about what the routes let through,
--     Rotation about the stored token, Showing and Setup about the codes that the dashboard
--     shows in the two modes and what they lead to, Run with the agent's life from its listener
--     to its end.
--   * Tunnel (internal/tunnel): the companion program and its installation, which Install is
--     about; Output, the search for the address in what it prints; Process, its start, whose
--     Resources are what it takes and gives back. The tunnel that Simple starts is such a
--     process; Handover is about the address that goes from one to the other.
--   * Installer (cmd/tailblink/platform_windows.go): the start with the session and the
--     literals of PowerShell; Copy, the program's files; Files, these with the companion;
--     Backup, the removal of the old one; Steps, the order of installing and removing, with the
--     user's consent in Consent; Programs, what is started.
--   * Command (cmd/tailblink/main.go and platform_linux.go): the command line; Launch starts
--     the agent, Service is the agent's process, Serving uses Tailscale, Platforms has what the
--     other builds do. Control and Opening are about the command and the agent's handler
--     together.
--   * Tray (cmd/tailblink/tray_windows.go): the icon, its window and its menu, over sequences
--     of events; Interface (with desktop.go), its start beside the agent and its closing.
--   * Testhost (shortcuts/testhost and shortcuts/simple-testhost): the hosts that the shortcuts
--     are tested with; Trace about what the fixture shows.
--   * Tests: the results listed below, applied to concrete data.
--
-- State is passed explicitly; a mutex makes a call one step. Where no lock covers two accesses that
-- matter, they are two steps: the check of the mode and the API's service in the agent's routes, the
-- list of requests and the API's service in the test host. A function of the model is named as in
-- the source, in snake case: `serveBuffered` is `serve_buffered`, and Go's `Get` of the sessions is
-- `lookup`. Times are nanoseconds as natural numbers, 0 for the zero time. Random bytes, the clock and
-- the answers of the system are arguments.
--
-- Bounds and fuel: the loop of `retryOpenClipboard` runs on eleven rounds of fuel. They are enough,
-- since its waits double from 10 ms to 160 ms and fill the second in ten rounds. The removal of the
-- backup has 32 rounds for three seconds of pauses of 100 ms; the waits for an old and a new agent have
-- 51 rounds for five seconds of 100 ms, and 65 for eight seconds of 125 ms. No other loop needs fuel but
-- the trimming of spaces, whose fuel is the length of its text.
--
-- Not modelled: what the calls of the operating system do beyond their answers, so message boxes,
-- detached processes and the browser; the pages' HTML, images and assets; the listeners and servers.
pub mod Base
pub mod Http
pub mod Clipboard
pub mod Config
pub mod Pairing
pub mod Api
pub mod Simple
pub mod Tailscale
pub mod Agent
pub mod Command
pub mod Installer
pub mod Logging
pub mod Testhost
pub mod Tests
pub mod Tray
pub mod Tunnel
pub mod Webui
