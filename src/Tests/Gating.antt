-- ===== src/Tests/Gating.antt =====
-- Runs of the registry of internal/gate/gate.go.
use rfid_middleware_idro900e.Prelude.{none, refl}
use rfid_middleware_idro900e.Prelude.Int.{pos}
use rfid_middleware_idro900e.Domain.{GateMeta, no_meta, active, suspended_token}
use rfid_middleware_idro900e.Store.{empty}
use rfid_middleware_idro900e.Store.Gates.{gate_of}
use rfid_middleware_idro900e.Gate.{Entry, Registry, new_registry, init, get, get_entry, put_entry}
use rfid_middleware_idro900e.Gate.Mirror.{set_mirrors, Mirrors}

abbrev entry : Entry
entry = record { state = active; reason = ""; fingerprint = "f"; meta = no_meta }

abbrev reg : Registry
reg = init "r1" entry new_registry

abbrev meta : GateMeta
meta = record { event_name = "E"; booth_name = "B"; unit_name = "U"; cooldown_sec = pos 60 }

set_mirrors_example : Mirrors "r1" suspended_token "404" 7 "" none reg empty
unfolding get get_entry put_entry init gate_of
set_mirrors_example = set_mirrors "r1" suspended_token "404" 7 "" none reg empty refl
