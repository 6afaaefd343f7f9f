-- ===== src/Tests.antt =====
-- Concrete data for the tests: parsers, settings, requests and a disk.
pub mod Native
pub mod Companion
pub mod Setup
pub mod Launching
pub mod Server
pub mod Entry
pub mod Storage
pub mod Desktop
pub mod Tailnet
pub mod Connection
pub mod Log
pub mod Pages
pub mod Routes
pub mod Phone
pub mod Control
use tailclip.Base.{
  ℕ, Bool, true, false, Option, none, some, List, [], ◌∷◌, ◌++◌, Bytes, bytes, same, is_empty,
  if◌then◌else◌,
}
use tailclip.Http.{Parsers, Request, Header}
use tailclip.Config.Settings.{Config}
use tailclip.Config.File.{Codec, Disk, Faults, Rest, at_end, other_value}
use tailclip.Config.Store.{Store}
use tailclip.Simple.Serve.{PairParsers, PairInput}

-- The address and the media type that the requests carry are known; a text is the whole body.
abbrev pub parsers : Parsers
parsers = record {
  split_host = λ s. if same s (bytes "127.0.0.1:50000") then some (bytes "127.0.0.1") else none;
  is_loopback = λ s. same s (bytes "127.0.0.1");
  media_type = λ s. if is_empty s then none else some s;
  decode_word = λ s. some s;
  decode_text = λ s. some (some s, []);
  is_eof = is_empty;
}

abbrev pub pair_parsers : PairParsers
pair_parsers = record {
  common = parsers;
  decode_pair = λ s. some (record { version = bytes "1"; ticket = s }, []);
}

abbrev pub request : Bytes → Bytes → Header → Bytes → Request
request method path header body = record {
  method = method;
  path = path;
  host = bytes "a.trycloudflare.com";
  remote_addr = bytes "127.0.0.1:50000";
  header = header;
  body = body;
  broken = false;
  ctx = none;
}

-- Thirty-two zero bytes in base64.
abbrev pub token : Bytes
token = bytes "AAAAAAAAAAAAAAAAAAAAAAAAAAAAAAAAAAAAAAAAAAA"

abbrev pub zeros : Bytes
zeros =
    0 ∷ 0 ∷ 0 ∷ 0 ∷ 0 ∷ 0 ∷ 0 ∷ 0 ∷ 0 ∷ 0 ∷ 0 ∷ 0 ∷ 0 ∷ 0 ∷ 0 ∷ 0 ∷ 0 ∷ 0 ∷ 0 ∷ 0 ∷ 0 ∷ 0 ∷ 0 ∷ 0
    ∷ 0 ∷ 0 ∷ 0 ∷ 0 ∷ 0 ∷ 0 ∷ 0 ∷ 0 ∷ []

abbrev pub settings : Config
settings = record {
  version = 1;
  device_name = bytes "desk";
  tailscale_device = bytes "desk";
  pairing_token = token;
  connection_mode = [];
}

-- JSON that knows one configuration.
abbrev pub codec : Codec
codec = record {
  encode = λ c. bytes "settings";
  decode =
      λ s. if same s (bytes "settings" ++ b'\n' ∷ []) then some (settings, b'\n' ∷ []) else none;
  rest = λ s. if same s (b'\n' ∷ []) then at_end else other_value;
}

abbrev pub empty_disk : Disk
empty_disk = record { content = none; temp = none; locked = false }

abbrev pub no_faults : Faults
no_faults = record {
  windows = false;
  mkdir = false;
  chmod_dir = false;
  create_temp = false;
  chmod_temp = false;
  write = false;
  sync = false;
  close = false;
  replace = false;
  chmod_file = false;
}

abbrev pub store : Store
store = record { cfg = settings; disk = empty_disk }
