-- ===== src/App/Wiring.antt =====
-- internal/app/app.go: what `Run` makes of the configuration for the parts that it starts, which readers get a preflight, and
-- the alarms that it repeats. The durations are those of a configuration whose numbers are not negative.
pub mod Accepted
use rfid_middleware_idro900e.Prelude.{
  ℕ, ◌*◌, ◌+◌, String, Bool, true, false, not, List, [], ◌∷◌, ◌++◌, map, select, Option, none, some,
  if◌then◌else◌,
}
use rfid_middleware_idro900e.Prelude.Int.{ℤ, pos, negsuc}
use rfid_middleware_idro900e.Domain.{suspended, SenderState, running, halted}
use rfid_middleware_idro900e.Gate.{Entry, Entries, Registry, get, snapshot}
use rfid_middleware_idro900e.Admission.{Service, Log, info, error}
use rfid_middleware_idro900e.Congkong.Classify.{HttpResult}
use rfid_middleware_idro900e.Sender.{Sender, Post, seconds}
use rfid_middleware_idro900e.Config
use rfid_middleware_idro900e.Config.{Reader, token_of}
use rfid_middleware_idro900e.Session

abbrev pub natural : ℤ → ℕ
natural (pos n) = n
natural (negsuc n) = 0

-- `adm`
abbrev pub service_of : Config.Config → Service
service_of c = record {
  debounce = seconds (natural c.debounce_sec);
  has_wake = true;
  has_on_tag = true;
}

-- `snd`, with what the server answers.
abbrev pub sender_of : (Post → HttpResult) → Config.Config → Sender
sender_of answer c = record {
  max_age = seconds (3_600 * natural c.queue_max_age_hours);
  creds = λ id. token_of id c.readers;
  answer = answer;
  has_on_success = true;
  has_on_contact = true;
}

-- The configuration of a reader's session.
abbrev pub session_of : Config.Config → Reader → Session.Config
session_of c r = record { reader_id = r.id; power_gain = c.power_gain; buzzer = c.buzzer }

abbrev pub sessions : Config.Config → List Session.Config
sessions c = map (session_of c) c.readers

abbrev starts : Option Entry → Bool
starts none = true
starts (some e) = not (suspended e.state)

-- The readers that get a preflight: a suspension that was restored is not lifted by one.
unfoldable pub preflights : Registry → List Reader → List Reader
unfolding get
preflights reg = select (λ r. starts (get r.id reg))

unfoldable pub gate_alerts : Entries → Log
gate_alerts [] = []
gate_alerts ((id, e) ∷ rest) =
    let more = gate_alerts rest in
    if suspended e.state then (error, "GATE_SUSPENDED_ALERT") ∷ more else more

abbrev halt_alert : SenderState → Log
halt_alert running = []
halt_alert halted = (error, "SENDER_HALTED_REQUEST_BUG") ∷ []

-- A minute of the repeated alarms.
unfoldable pub alerts : Registry → Log
unfolding gate_alerts
alerts reg = let (entries, global) = snapshot reg in halt_alert global ++ gate_alerts entries
