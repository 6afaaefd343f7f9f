-- ===== src/Tests/Launching.antt =====
-- The command line: starting the agent, opening its pages, asking Tailscale.
use tailclip.Base.{true, false, none, some, bytes, ltb, if◌then◌else◌, ok}
use tailclip.Command.Launch.{World, ensure_agent}
use tailclip.Command.Launch.Outcome.{Ends, ensure_agent-Ends}

-- An agent of another version that takes two answers to end; the new one answers at the third.
abbrev world : World
world = record {
  version =
      λ i. if ltb i 3 then some (bytes "0.1") else if ltb i 6 then none else some (bytes "0.2");
  takes = λ i. 1000;
  ended = λ i. false;
  oversleep = λ i. 0;
  stop = ok tt;
  start_detached = true;
}

ensure_agent-Ends_example : Ends world 116 (ensure_agent world (bytes "0.2") 0)
ensure_agent-Ends_example = ensure_agent-Ends world (bytes "0.2") 0
