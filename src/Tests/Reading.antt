-- ===== src/Tests/Reading.antt =====
-- Runs of the session with a reader, of its commands, and of the operator's command.
use mathlib.Core.List.{flatten}
use rfid_middleware_idro900e.Prelude.{
  ℕ, true, false, [], ◌∷◌, ◌++◌, ◌≡◌, refl, arith, Bytes, List, Bool,
}
use rfid_middleware_idro900e.Prelude.Int.{pos}
use rfid_middleware_idro900e.Domain.{no_meta, suspended_token}
use rfid_middleware_idro900e.Store.{Db, empty, new_row}
use rfid_middleware_idro900e.Protocol.Cut.{cut_at}
use rfid_middleware_idro900e.Protocol.Framer.Frames.{ready}
use rfid_middleware_idro900e.Session.{
  Config, Session, Event, chunk, expired, closed, power, taken, inventory, open_session, run,
}
use rfid_middleware_idro900e.Session.Initialization.{InOrder, run_initializes}
use rfid_middleware_idro900e.Session.Inventory.{epcs, tags_of, events, stream_reaches_handler}
use rfid_middleware_idro900e.Resume.{Given, queue_resume}
use rfid_middleware_idro900e.Resume.Outcome.{Outcome, queue_resume_outcome}

abbrev config : Config
config = record { reader_id = "r1"; power_gain = pos 300; buzzer = pos 1 }

abbrev no_write_fails : ℕ → Bool
no_write_fails n = false

-- The reader answers the first commands, and a tag that was still on its way comes before the second answer.
abbrev opening : List Event
opening =
    expired
    ∷ chunk 1 (b'>' ∷ b'9' ∷ b'v' ∷ b'1' ∷ b'\r' ∷ b'\n' ∷ [])
    ∷ chunk 2 (b'>' ∷ b'T' ∷ b'3' ∷ b'0' ∷ b'0' ∷ b'0' ∷ b'e' ∷ b'2' ∷ b'\r' ∷ b'\n' ∷ [])
    ∷ power (pos 100)
    ∷ taken
    ∷ closed
    ∷ []

abbrev reading : Session
reading = record (open_session no_write_fails) {
  phase = inventory;
  in_init = false;
  framer = ready 64 [];
}

abbrev tag_line : Bytes
tag_line = b'>' ∷ b'T' ∷ b'3' ∷ b'0' ∷ b'0' ∷ b'0' ∷ b'e' ∷ b'2' ∷ []

abbrev cut_up : List (ℕ × Bytes)
cut_up =
    (1, b'>' ∷ b'T' ∷ b'3' ∷ b'0' ∷ [])
    ∷ (2, b'0' ∷ b'0' ∷ b'e' ∷ b'2' ∷ b'\r' ∷ [])
    ∷ (3, b'\n' ∷ b'>' ∷ [])
    ∷ []

run_initializes_example :
    InOrder config (run no_write_fails config opening (open_session no_write_fails))
run_initializes_example = run_initializes no_write_fails config opening

stream_reaches_handler_example :
    epcs (run no_write_fails config (events cut_up) reading)
    ≡ epcs reading ++ tags_of (tag_line ∷ [])
unfolding flatten cut_at
stream_reaches_handler_example =
    stream_reaches_handler no_write_fails config 64 cut_up (tag_line ∷ []) (b'>' ∷ []) reading refl
      refl refl refl ((refl, omega arith), tt) refl (omega arith)

abbrev all_well : Given
all_well = record {
  configured = true;
  locked = true;
  opened = true;
  gates_fail = false;
  count_fails = false;
  discard_fails = false;
  set_fails = false;
}

abbrev stopped : Db
stopped = record empty {
  queue = new_row 1 "r1" (b'e' ∷ b'2' ∷ []) 5_000 "05" ∷ [];
  gates =
      record {
        reader_id = "r1";
        state = suspended_token;
        reason = "401";
        changed_at_ms = 7;
        token_fingerprint = "f";
        meta = no_meta;
      }
      ∷ [];
}

queue_resume_outcome_example :
    Outcome true "r1" 9 stopped (queue_resume all_well "discard" "r1" 9 stopped)
queue_resume_outcome_example = queue_resume_outcome all_well "discard" "r1" 9 stopped
