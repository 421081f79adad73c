-- ===== src/Tests/Showing.antt =====
-- Runs of internal/gui: the lamp, the ring of the log, the catalogue and the mask.
use mathlib.Core.List.{Memᴰ}
use rfid_middleware_idro900e.Prelude.{
  ℕ, true, false, inl, List, [], ◌∷◌, String, Option, none, some, ◌≡◌, ◌↔◌, refl, arith, Bytes, inr,
  length, drop, ◌-◌, ◌+◌,
}
use rfid_middleware_idro900e.Prelude.Int.{pos}
use rfid_middleware_idro900e.Domain.{no_meta, suspended_token}
use rfid_middleware_idro900e.Store.{empty}
use rfid_middleware_idro900e.Gate.{Registry, new_registry, Entry, init, get, get_entry, put_entry}
use rfid_middleware_idro900e.Config.{Reader}
use rfid_middleware_idro900e.App.Telemetry.{Telemetry, new_telemetry}
use rfid_middleware_idro900e.App.Status.{Process, Status, write_status}
use rfid_middleware_idro900e.Gui.Signal.{green, red, eval_signal, build_state}
use rfid_middleware_idro900e.Gui.Signal.Healthy.{IsHealthy}
use rfid_middleware_idro900e.Gui.Signal.Exact.{green_iff}
use rfid_middleware_idro900e.Config
use rfid_middleware_idro900e.Gui.Core.{new_controller}
use rfid_middleware_idro900e.Gui.Augment.{augment, shows}
use rfid_middleware_idro900e.Gui.Augment.Red.{trouble_reaches_window}
use rfid_middleware_idro900e.Gui.LogRing.{LogRing, new_log_ring, write_all, drain}
use rfid_middleware_idro900e.Gui.LogRing.Latest.{drain_latest}
use rfid_middleware_idro900e.Gui.Catalog.{
  Item, CatalogFile, Catalog, parse_catalog, take_items, start_catalog, find,
}
use rfid_middleware_idro900e.Gui.Catalog.Exact.{first_good, session_of, parse_catalog_exact}

-- Every instant is the first second.
abbrev parse : String → Option ℕ
parse s = some 1_000_000_000

abbrev process : Process
process = record {
  format = λ n. "01";
  pid = 7;
  version = "1";
  mode = "tcp";
  started_at = "01";
  depth_fails = false;
  oldest_fails = false;
  count_fails = λ r. false;
}

abbrev reader_1 : Reader
reader_1 = record { id = "r1"; addr = "10.0.0.5:5578"; token = record { v = "t" }; session_id = "" }

abbrev telemetry : Telemetry
telemetry = new_telemetry ("r1" ∷ []) 1_000_000_000

abbrev revoked : Entry
revoked = record { state = suspended_token; reason = "401"; fingerprint = "f"; meta = no_meta }

abbrev reg : Registry
reg = init "r1" revoked new_registry

abbrev status : Status
status = (write_status process (reader_1 ∷ []) 1_000_000_000 reg telemetry empty).0

green_iff_example :
    ((eval_signal parse status 2_000_000_000 24).0 ≡ green)
    ↔ IsHealthy parse status 2_000_000_000 24
green_iff_example = green_iff parse status 2_000_000_000 24

abbrev config : Config.Config
config = record {
  api_host = "https://api.example";
  data_dir = "/data";
  debounce_sec = pos 60;
  queue_max_age_hours = pos 24;
  request_timeout_sec = pos 10;
  power_gain = pos 300;
  buzzer = pos 0;
  log_level = "info";
  sessions_file = "";
  readers = reader_1 ∷ [];
}

trouble_reaches_window_example :
    (augment parse 2_000_000_000 false new_controller
      (some config)
      none
      true
      (build_state parse (some status) 2_000_000_000 24)).lamp
    ≡ shows red
unfolding get init get_entry put_entry
trouble_reaches_window_example =
    trouble_reaches_window parse process (reader_1 ∷ []) 1_000_000_000 reg telemetry empty
      2_000_000_000 24 false new_controller (some config) none true
      (inr (reader_1, revoked, Memᴰ.head refl, refl, refl)) (inl refl) refl

abbrev ring : LogRing
ring = new_log_ring (pos 2)

abbrev lines : List Bytes
lines = (1 ∷ []) ∷ (2 ∷ []) ∷ (3 ∷ []) ∷ []

drain_latest_example :
    ((drain (write_all lines (drain ring).0)).1 ≡ drop (length lines - ring.cap) lines)
    × ((write_all lines (drain ring).0).dropped ≡ ring.dropped + (length lines - ring.cap))
unfolding new_log_ring
drain_latest_example = drain_latest lines ring (omega arith)

abbrev item : Item
item = record {
  id = "s1";
  name = "Booth";
  unit_name = "Unit";
  token_label = "A";
  pulse_token = "cccccccccccccccccccccccccccccccc00000000000000001111111111111111";
  issued_at = "";
}

-- The same identifier again, and an item without a token.
abbrev catalog_file : CatalogFile
catalog_file = record {
  version = some (pos 1);
  event_name = "Event";
  exported_at = "01";
  sessions =
      item ∷ record item { name = "Other" } ∷ record item { id = "s2"; pulse_token = "" } ∷ [];
}

abbrev catalog : Catalog
catalog = take_items catalog_file.sessions [] (start_catalog catalog_file)

parse_catalog_exact_example :
    (find "s1" catalog.sessions ≡ session_of (first_good "s1" catalog_file.sessions))
    × (length catalog.sessions + length catalog.warnings ≡ length catalog_file.sessions)
unfolding parse_catalog take_items
parse_catalog_exact_example = parse_catalog_exact catalog_file catalog "s1" refl
