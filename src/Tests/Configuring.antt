-- ===== src/Tests/Configuring.antt =====
-- Runs of internal/config/config.go and internal/gui/cfgwrite.go.
use rfid_middleware_idro900e.Prelude.{
  true, false, Option, none, some, [], ◌∷◌, ◌≡◌, ◌↔◌, refl, bytes_eq,
}
use rfid_middleware_idro900e.Prelude.Case.{lower_char}
use rfid_middleware_idro900e.Prelude.Int.{pos}
use rfid_middleware_idro900e.Config.{
  WireReader, Wire, Platform, Url, document, config_of, accepted, validate,
}
use rfid_middleware_idro900e.Config.Addr.{is_placeholder}
use rfid_middleware_idro900e.Config.Valid.{IsValid}
use rfid_middleware_idro900e.Config.Exact.{validate_iff}
use rfid_middleware_idro900e.Domain.{millis, TagRead}
use rfid_middleware_idro900e.Store.{empty}
use rfid_middleware_idro900e.Store.Invariant.{IsWf}
use rfid_middleware_idro900e.Store.Invariant.Reach.{start}
use rfid_middleware_idro900e.Gate.{new_registry}
use rfid_middleware_idro900e.Congkong.Classify.{HttpResult}
use rfid_middleware_idro900e.Sender.{Post}
use rfid_middleware_idro900e.App.Wiring.{service_of}
use rfid_middleware_idro900e.App.Wiring.Accepted.{IsWired, accepted-IsWired}
use rfid_middleware_idro900e.System.{System, none_yet, step, receives, received}
use rfid_middleware_idro900e.System.Configured.{configured-IsWf}
use rfid_middleware_idro900e.Gui.CfgWrite.{Codec, Files, Io, Undo, ConfigEdit, write_config}
use rfid_middleware_idro900e.Gui.Catalog.{Catalog}
use rfid_middleware_idro900e.Gui.Core.{new_controller, ready}
use rfid_middleware_idro900e.Gui.Apply.{Meets, Desk, apply_session}
use rfid_middleware_idro900e.Gui.Apply.Whole.{Whole, apply_session-Whole}
use rfid_middleware_idro900e.Gui.CfgWrite.Atomic.{IsRead, Wrote, write_config_atomic}

abbrev pub reader_1 : WireReader
reader_1 = record {
  id = "gate-1";
  addr = "192.168.9.10:5578";
  pulse_token = "AAAAAAAAAAAAAAAABBBBBBBBBBBBBBBB00000000000000001111111111111111";
  session_id = "s1";
}

abbrev pub reader_2 : WireReader
reader_2 = record {
  id = "gate-2";
  addr = "192.168.9.11:5578";
  pulse_token = "cccccccccccccccccccccccccccccccc00000000000000001111111111111111";
  session_id = "";
}

abbrev pub wire : Wire
wire = record {
  version = some (pos 1);
  api_host = "https://api.example";
  data_dir = "/data";
  debounce_sec = none;
  queue_max_age_hours = none;
  request_timeout_sec = none;
  power_gain = some (pos 250);
  buzzer = none;
  log_level = "";
  sessions_file = "";
  readers = reader_1 ∷ reader_2 ∷ [];
}

abbrev url : Url
url = record {
  has_user = false;
  raw_query = "";
  fragment = "";
  path = "";
  host = "api.example";
  hostname = "api.example";
  scheme = "https";
}

abbrev pub platform : Platform
platform = record { parse_url = λ s. some url; is_abs = λ s. true }

validate_iff_example :
    (validate platform wire ≡ accepted (config_of wire))
    ↔ (IsValid platform wire × (config_of wire ≡ config_of wire))
validate_iff_example = validate_iff platform wire (config_of wire)

-- Every request fails.
abbrev unreachable : Post → HttpResult
unreachable q = record {
  status = 0;
  body = none;
  body_err = false;
  transport_err = true;
  date_skew = none;
}

accepted-IsWired_example : IsWired unreachable (config_of wire)
unfolding validate config_of lower_char is_placeholder bytes_eq
accepted-IsWired_example = accepted-IsWired unreachable platform wire (config_of wire) refl

abbrev begun : System
begun = record {
  world = record {
    reg = new_registry;
    db = empty;
    log = [];
    posts = [];
    contacts = [];
    succeeded = [];
  };
  in_flight = none;
}

abbrev read : TagRead
read = record {
  reader_id = "gate-1";
  epc = b'e' ∷ b'2' ∷ [];
  received_at = 7_000_000_000;
  raw_line = [];
}

abbrev read_in : System
read_in = record begun {
  world = received (λ n. "07") (λ c. false) (service_of (config_of wire)) read begun.world;
}

configured-IsWf_example : IsWf (millis (service_of (config_of wire)).debounce) read_in.world.db
unfolding validate config_of lower_char is_placeholder bytes_eq
configured-IsWf_example =
    configured-IsWf {sys = begun} {sys' = read_in} (λ n. "07") (λ v. v) unreachable platform wire
      (config_of wire) refl start (step none_yet (receives (λ c. false) read begun))

-- Texts that are documents already.
abbrev pub codec : Codec Wire
codec = record {
  is_empty = λ w. false;
  unmarshal = λ w. some w;
  decode = document;
  encode = λ w. w;
}

abbrev pub files : Files Wire
files = record { main = some wire; bak = none; tmp = none }

abbrev pub all_well : Io
all_well = record { read = false; backup = false; mkdir = false; temp = false; rename = false }

abbrev pub edit : ConfigEdit
edit = record {
  api_host = "https://api.example";
  data_dir = "/data";
  debounce_sec = pos 30;
  queue_max_age_hours = pos 24;
  request_timeout_sec = pos 10;
  power_gain = pos 300;
  buzzer = pos 1;
  log_level = "debug";
  sessions_file = "";
  readers = record { id = "gate-1"; addr = "192.168.9.20:5578" } ∷ [];
}

write_config_atomic_example :
    (raw : Option Wire) × IsRead codec platform false files raw
    × Wrote codec platform raw edit files (write_config codec platform all_well edit files)
write_config_atomic_example = write_config_atomic codec platform all_well edit files

-- The catalogue has another token for the first reader; the core does not run.
abbrev catalog : Catalog
catalog = record {
  event_name = "Event";
  exported_at = "";
  sessions =
      record {
        id = "s9";
        name = "Booth";
        unit_name = "Unit";
        token_label = "";
        token = "dddddddddddddddddddddddddddddddd00000000000000001111111111111111";
        token_fp = "dddddddd";
        issued_at = "";
      }
      ∷ [];
  warnings = [];
}

abbrev pub meets : Meets
meets = record {
  hosting = true;
  catalog = some catalog;
  pending = 0;
  io = all_well;
  ends_in_time = true;
  before = ready;
  before_again = ready;
  resumes = true;
}

abbrev pub desk : Desk Wire
desk = record { files = files; core = new_controller; cfg = some (config_of wire) }

-- A rollback in which no call fails.
abbrev pub undo : Undo Wire
undo = record { read = false; opening = false; cut = none; remove = false }

apply_session-Whole_example :
    Whole codec platform undo "gate-1" "s9" meets desk
      (apply_session codec platform undo meets "gate-1" "s9" desk)
apply_session-Whole_example = apply_session-Whole codec platform undo "gate-1" "s9" meets desk
