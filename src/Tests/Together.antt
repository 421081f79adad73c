-- ===== src/Tests/Together.antt =====
-- Runs of the parts together.
use rfid_middleware_idro900e.Prelude.{ℕ, Bool, refl, true, false, none, String, [], ◌∷◌}
use rfid_middleware_idro900e.Domain.{TagRead, halted}
use rfid_middleware_idro900e.Store.{Call, empty}
use rfid_middleware_idro900e.Gate.{new_registry}
use rfid_middleware_idro900e.Admission.{Service}
use rfid_middleware_idro900e.Sender.{Sender, World, no_faults, seconds, round}
use rfid_middleware_idro900e.System.{System, Steps, none_yet, step, receives, rounds, received}
use rfid_middleware_idro900e.System.Safety.{Steps-halted, Silent}

abbrev format : ℕ → String
format _ = "07"

abbrev digest : String → String
digest v = v

abbrev service : Service
service = record { debounce = 1_000_000_000; has_wake = true; has_on_tag = false }

abbrev never : Call → Bool
never _ = false

abbrev read : TagRead
read = record {
  reader_id = "r1";
  epc = b'e' ∷ b'2' ∷ [];
  received_at = 7_000_000_000;
  raw_line = [];
}

abbrev sender : Sender
sender = record {
  max_age = seconds 86_400;
  creds = λ _. none;
  answer = λ _. record {
    status = 200;
    body = none;
    body_err = false;
    transport_err = false;
    date_skew = none;
  };
  has_on_success = true;
  has_on_contact = true;
}

abbrev world : World
world = record {
  reg = record new_registry { global = halted };
  db = empty;
  log = [];
  posts = [];
  contacts = [];
  succeeded = [];
}

abbrev begun : System
begun = record { world = world; in_flight = none }

abbrev after : System
after = record {
  world = (round sender no_faults 8_000_000_000 (received format never service read world)).0;
  in_flight = none;
}

-- A read, and a round of the sender.
a_run : Steps format digest service sender begun after
a_run =
    step (step none_yet (receives never read begun))
      (rounds no_faults 8_000_000_000 (received format never service read world))

Steps-halted_example : Silent begun after
Steps-halted_example = Steps-halted a_run refl
