-- ===== src/Session.antt =====
-- internal/reader/session/session.go: one TCP session with a reader, as a machine that takes one event at a time: what the
-- `select` in the code picks. `serve` sends Stop and drains, then sends each command of the initialisation after the reply to
-- the one before, then runs the inventory, in which a change of power is the same sequence of Stop, setting and start.
pub mod Frame
pub mod Script
pub mod Initialization
pub mod Inventory
pub mod Reconnect
pub mod Probe
use rfid_middleware_idro900e.Prelude.{
  ℕ, zero, suc, String, Bool, true, false, ◌&&◌, ◌||◌, not, List, [], ◌∷◌, ◌++◌, Option, none, some,
  leb, ◌==◌, if◌then◌else◌, Bytes, length, any,
}
use rfid_middleware_idro900e.Prelude.Int.{ℤ, pos}
use rfid_middleware_idro900e.Domain.{TagRead}
use rfid_middleware_idro900e.Admission.{Log, debug, info, warn, error}
use rfid_middleware_idro900e.Protocol.Framer.{Framer, new_framer, default_max_line, push}
use rfid_middleware_idro900e.Protocol.Parser.{Kind, Line, parse}
use rfid_middleware_idro900e.Protocol.Commands.{
  cmd_version, cmd_set_buzzer, cmd_set_power, cmd_rssi_off, cmd_start_inventory, cmd_stop, Matcher,
  match_setting, match_ack,
}
use rfid_middleware_idro900e.Sender.{seconds}

-- `reconnectDelay`
unfoldable pub reconnect_delay : ℤ → ℕ
reconnect_delay (pos zero) = seconds 1
reconnect_delay (pos (suc zero)) = seconds 5
reconnect_delay (pos (suc (suc n))) = seconds 30
reconnect_delay _ = seconds 1

-- The fields of `Config` that reach the reader or the handler.
pub record Config : Type 0 where
  pub reader_id : String
  pub power_gain : ℤ
  pub buzzer : ℤ

abbrev pub Command : Type 0
Command = Bytes × Matcher

-- What the session waits for: the end of the drain, the reply to a command, with the commands that follow it, or the
-- reader's tags; or it has ended.
pub data Phase : Type 0 where
  draining : Phase
  awaiting : Matcher → List Command → Phase
  inventory : Phase
  ended : Phase

-- `reads` are the calls of the handler, `written` the commands that were written to the connection.
pub record Session : Type 0 where
  pub phase : Phase
  pub framer : Framer
  pub in_init : Bool
  pub reconfig : Option ℤ
  pub reads : List TagRead
  pub log : Log
  pub written : List Bytes

-- What a `select` may pick: a chunk that was read at an instant, a timer, the end of the connection or of the process, and
-- a change of power, when it is asked for and when the loop takes it.
pub data Event : Type 0 where
  chunk : ℕ → Bytes → Event
  expired closed cancelled : Event
  power : ℤ → Event
  taken : Event

abbrev pub logged : Log → Session → Session
logged l st = record st { log = st.log ++ l }

abbrev too_long : ℕ → Log
too_long zero = []
too_long (suc n) = (warn, "READER_LINE_TOO_LONG") ∷ too_long n

-- `dispatch` on a tag.
abbrev admit_tag : Config → ℕ → Line → Session → Session
admit_tag cfg now line st =
    if st.in_init then logged ((debug, "READER_RAW") ∷ []) st else record st {
      reads =
          st.reads
          ++ record {
            reader_id = cfg.reader_id;
            epc = line.tag.epc;
            received_at = now;
            raw_line = line.raw;
          }
            ∷ [];
    }

-- `dispatch`
unfoldable pub dispatch : Config → ℕ → Line → Session → Session
dispatch cfg now line st = elim line.kind [
  | Kind.tag ↦ admit_tag cfg now line st
  | Kind.bad_tag ↦ logged ((warn, "READER_BAD_TAG") ∷ []) st
  | Kind.ack ↦ logged ((debug, "READER_RAW") ∷ []) st
  | Kind.code ↦ logged ((debug, "READER_RAW") ∷ []) st
  | Kind.setting ↦ logged ((debug, "READER_RAW") ∷ []) st
  | Kind.unknown ↦ logged ((warn, "READER_UNKNOWN_LINE") ∷ []) st
]

unfoldable pub dispatch_all : Config → ℕ → List Bytes → Session → Session
dispatch_all cfg now [] st = st
dispatch_all cfg now (raw ∷ rest) st = dispatch_all cfg now rest (dispatch cfg now (parse raw) st)

-- The framer takes the chunk, and the lines that it dropped are logged.
unfoldable pub feed : Bytes → Session → Session × List Bytes
feed bytes st =
    let (f, res) = push st.framer bytes in
    (logged (too_long res.dropped) (record st { framer = f }), res.lines)

-- `handleChunk`
unfoldable pub handle_chunk : Config → ℕ → Bytes → Session → Session
handle_chunk cfg now bytes st = let (st', lines) = feed bytes st in dispatch_all cfg now lines st'

-- A line of the loop of `consumeUntil`: the first one that matches is logged, all others are dispatched.
unfoldable pub take_reply : Config → ℕ → Bool → Line → Session → Session
take_reply cfg now true line st = logged ((debug, "READER_RAW") ∷ []) st
take_reply cfg now false line st = dispatch cfg now line st

unfoldable pub consume : Config → ℕ → Matcher → Bool → List Bytes → Session → Session × Bool
unfolding take_reply
consume cfg now match found [] st = (st, found)
consume cfg now match found (raw ∷ rest) st =
    let line = parse raw in
    let hit = not found && match line in
    consume cfg now match (found || hit) rest (take_reply cfg now hit line st)

-- `consumeUntil`
unfoldable pub consume_until : Config → ℕ → Matcher → Bytes → Session → Session × Bool
consume_until cfg now match bytes st =
    let (st', lines) = feed bytes st in consume cfg now match false lines st'

-- The next command is written, or nothing is left to write and the inventory runs. `fails` says which writes fail.
unfoldable pub advance : (ℕ → Bool) → List Command → Session → Session
advance fails [] st =
    logged ((info, if st.in_init then "READER_INVENTORY_STARTED" else "RECONFIGURE_DONE") ∷ [])
      (record st { phase = inventory; in_init = false })
advance fails ((cmd, match) ∷ rest) st =
    if fails (length st.written)
    then record st { phase = ended }
    else record st { written = st.written ++ cmd ∷ []; phase = awaiting match rest }

-- `initSteps`; without a command where a setting is out of its range.
abbrev steps_with : Option Bytes → Option Bytes → Option (List Command)
steps_with (some beep) (some gain) = some (
    (cmd_version, match_setting b'v')
    ∷ (beep, match_setting b'b')
    ∷ (gain, match_setting b'p')
    ∷ (cmd_rssi_off, match_setting b'i')
    ∷ (cmd_start_inventory, match_ack b'f')
    ∷ [])
steps_with _ _ = none

unfoldable pub init_steps : Config → Option (List Command)
init_steps cfg = steps_with (cmd_set_buzzer cfg.buzzer) (cmd_set_power cfg.power_gain)

unfoldable pub start_init : (ℕ → Bool) → Option (List Command) → Session → Session
unfolding advance
start_init fails none st = record st { phase = ended }
start_init fails (some steps) st = advance fails steps st

-- The start of `serve`: Stop is written.
unfoldable pub open_session : (ℕ → Bool) → Session
open_session fails = record {
  phase = if fails 0 then ended else draining;
  framer = new_framer (pos default_max_line);
  in_init = true;
  reconfig = none;
  reads = [];
  log = [];
  written = if fails 0 then [] else cmd_stop ∷ [];
}

-- `reconfigure`
abbrev reconfigure : (ℕ → Bool) → Option Bytes → Session → Session
reconfigure fails none st = logged ((error, "RECONFIGURE_REJECTED") ∷ []) st
reconfigure fails (some cmd) st =
    advance fails
      ((cmd_stop, match_ack b'3')
        ∷ (cmd, match_setting b'p')
        ∷ (cmd_start_inventory, match_ack b'f')
        ∷ [])
      (logged ((info, "RECONFIGURE_START") ∷ []) st)

unfoldable pub take_reconfig : (ℕ → Bool) → Option ℤ → Session → Session
unfolding advance
take_reconfig fails none st = st
take_reconfig fails (some v) st =
    reconfigure fails (cmd_set_power v) (record st { reconfig = none })

-- A channel of one place: a request that finds one waiting is dropped.
abbrev pub or_kept : Option ℤ → ℤ → ℤ
or_kept none v = v
or_kept (some w) v = w

-- A chunk, in each phase.
unfoldable pub on_chunk : (ℕ → Bool) → Config → ℕ → Bytes → Session → Phase → Session
unfolding start_init advance
on_chunk fails cfg now bytes st draining =
    let (st', lines) = feed bytes st in
    if any (λ raw. match_ack b'3' (parse raw)) lines
    then start_init fails (init_steps cfg) st'
    else st'
on_chunk fails cfg now bytes st (awaiting match rest) =
    let (st', found) = consume_until cfg now match bytes st in
    if found then advance fails rest st' else st'
on_chunk fails cfg now bytes st inventory = handle_chunk cfg now bytes st
on_chunk fails cfg now bytes st ended = st

-- A timer: the end of the drain, or no reply in time. The inventory has none.
unfoldable pub on_expired : (ℕ → Bool) → Config → Session → Phase → Session
unfolding start_init
on_expired fails cfg st draining = start_init fails (init_steps cfg) st
on_expired fails cfg st (awaiting match rest) = record st { phase = ended }
on_expired fails cfg st inventory = st
on_expired fails cfg st ended = st

unfoldable pub on_taken : (ℕ → Bool) → Session → Phase → Session
unfolding take_reconfig
on_taken fails st inventory = take_reconfig fails st.reconfig st
on_taken fails st _ = st

-- One event of `serve`.
unfoldable pub on_event : (ℕ → Bool) → Config → Event → Session → Session
unfolding on_chunk on_expired on_taken
on_event fails cfg (chunk now bytes) st = on_chunk fails cfg now bytes st st.phase
on_event fails cfg expired st = on_expired fails cfg st st.phase
on_event fails cfg closed st = record st { phase = ended }
on_event fails cfg cancelled st = record st { phase = ended }
on_event fails cfg (power v) st = record st { reconfig = some (or_kept st.reconfig v) }
on_event fails cfg taken st = on_taken fails st st.phase

unfoldable pub run : (ℕ → Bool) → Config → List Event → Session → Session
run fails cfg [] st = st
run fails cfg (e ∷ es) st = run fails cfg es (on_event fails cfg e st)
