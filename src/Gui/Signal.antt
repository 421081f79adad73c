-- ===== src/Gui/Signal.antt =====
-- internal/gui/state.go: what the window shows of a status file. `parse` reads an instant that RFC 3339 writes; a headline is a
-- constructor where the code has a sentence.
pub mod Healthy
pub mod Exact
pub mod Alarm
use rfid_middleware_idro900e.Prelude.{
  ℕ, ◌+◌, ◌*◌, ◌/◌, String, Bool, true, false, not, ◌&&◌, ◌||◌, List, [], ◌∷◌, map, Option, none,
  some, leb, ltb, str_eq, if◌then◌else◌,
}
use rfid_middleware_idro900e.Prelude.Int.{ℤ, pos, negsuc}
use rfid_middleware_idro900e.App.Status.{Status, NtpInfo, ServerInfo, ReaderStatus}
use rfid_middleware_idro900e.Sender.{seconds}

pub data Signal : Type 0 where
  gray red yellow green : Signal

pub data Headline : Type 0 where
  stopped not_answering sender_halted clock_off near_expiry retrying cooldown_off clock_unchecked :
      Headline
  token_revoked reader_suspended reader_gone : String → Headline
  backlog running : ℕ → Headline

abbrev pub Shown : Type 0
Shown = Signal × Headline

-- `now.Sub(t) > d`
abbrev pub older_than : ℕ → ℕ → ℕ → Bool
older_than d now t = ltb (t + d) now

abbrev pub parsed_older : ℕ → ℕ → Option ℕ → Bool
parsed_older d now none = true
parsed_older d now (some t) = older_than d now t

-- `disconnectedOver`, with its limit of thirty seconds.
unfoldable pub disconnected_over : (String → Option ℕ) → ℕ → String → Bool
disconnected_over parse now since =
    if str_eq since "" then true else parsed_older (seconds 30) now (parse since)

abbrev pub minutes : ℕ → ℕ
minutes n = seconds (60 * n)

abbrev pub has_state : String → ReaderStatus → Bool
has_state s r = str_eq r.gate_state s

abbrev pub disconnected : ReaderStatus → Bool
disconnected r = str_eq r.conn_state "DISCONNECTED"

abbrev pub is_gone : (String → Option ℕ) → ℕ → ReaderStatus → Bool
is_gone parse now r = disconnected r && disconnected_over parse now r.conn_since

abbrev pub is_broken : ReaderStatus → Bool
is_broken r = has_state "SUSPENDED_CONFIG" r || has_state "SUSPENDED_REBIND" r

abbrev pub is_retrying : (String → Option ℕ) → ℕ → ReaderStatus → Bool
is_retrying parse now r =
    has_state "PREFLIGHT_RETRY" r
    || disconnected r && not (disconnected_over parse now r.conn_since)

-- The loops: the first reader that the test picks.
unfoldable pub first_of :
    (ReaderStatus → Bool) → (ReaderStatus → Shown) → List ReaderStatus → Option Shown
first_of p f [] = none
first_of p f (r ∷ rs) = let more = first_of p f rs in if p r then some (f r) else more

abbrev pub magnitude : ℤ → ℕ
magnitude (pos n) = n
magnitude (negsuc n) = n + 1

unfoldable pub clock_wrong : Option NtpInfo → Bool
clock_wrong none = false
clock_wrong (some n) = n.checked && leb 240 (magnitude n.skew_sec)

unfoldable pub clock_known : Option NtpInfo → Bool
clock_known none = false
clock_known (some n) = n.checked

abbrev pub over : ℕ → ℕ → Option ℕ → Bool
over d now none = false
over d now (some t) = older_than d now t

-- The oldest row has used nine tenths of its time.
unfoldable pub expires_soon : (String → Option ℕ) → ℕ → ℕ → String → Bool
expires_soon parse hours now oldest =
    if not (str_eq oldest "") && ltb 0 hours
    then over (minutes (60 * hours) * 9 / 10) now (parse oldest)
    else false

unfoldable pub piled_up : (String → Option ℕ) → ℕ → Status → Bool
piled_up parse now s =
    if ltb 0 s.queue_depth && not (str_eq s.queue_non_empty_since "")
    then over (minutes 5) now (parse s.queue_non_empty_since)
    else false

-- A rule that ends the search where it applies.
abbrev pub rule : Bool → Shown → Shown → Shown
rule b shown rest = if b then shown else rest

abbrev pub found : Option Shown → Shown → Shown
found none rest = rest
found (some shown) rest = shown

-- `evalSignal`
unfoldable pub eval_signal : (String → Option ℕ) → Status → ℕ → ℕ → Shown
unfolding first_of disconnected_over clock_wrong clock_known expires_soon piled_up
eval_signal parse s now hours =
    rule (not (str_eq s.sender_state "RUNNING")) (red, sender_halted)
      (found (first_of (has_state "SUSPENDED_TOKEN") (λ r. (red, token_revoked r.id)) s.readers) (
        found (first_of is_broken (λ r. (red, reader_suspended r.id)) s.readers) (
          found (first_of (is_gone parse now) (λ r. (red, reader_gone r.id)) s.readers) (
            rule (clock_wrong s.ntp) (red, clock_off)
              (rule (expires_soon parse hours now s.oldest_checked_at) (red, near_expiry)
                (found (first_of (is_retrying parse now) (λ r. (yellow, retrying)) s.readers) (
                  found
                    (first_of (has_state "ACTIVE_WARNING") (λ r. (yellow, cooldown_off)) s.readers)
                    (rule (piled_up parse now s) (yellow, backlog s.queue_depth)
                      (rule (not (clock_known s.ntp)) (yellow, clock_unchecked)
                        (green, running s.success_since_start))))))))))

-- The sentences of a reader's card.
pub data GateText : Type 0 where
  of_state other : String → GateText
  connection_lost : GateText

pub data ActionText : Type 0 where
  no_action wait_a_while check_internet ask_for_cooldown get_catalog call_developers
        choose_and_resume check_reader reconnecting :
      ActionText

-- `gateTexts`
abbrev gate_action : String → Option ActionText
gate_action s =
    if str_eq s "PREFLIGHT_PENDING"
    then some wait_a_while
    else if str_eq s "PREFLIGHT_RETRY"
    then some check_internet
    else if str_eq s "ACTIVE"
    then some no_action
    else if str_eq s "ACTIVE_WARNING"
    then some ask_for_cooldown
    else if str_eq s "SUSPENDED_TOKEN"
    then some get_catalog
    else if str_eq s "SUSPENDED_CONFIG"
    then some call_developers
    else if str_eq s "SUSPENDED_REBIND"
    then some choose_and_resume
    else none

pub record ReaderView : Type 0 where
  pub status : ReaderStatus
  pub text : GateText
  pub action : ActionText

abbrev or_reconnecting : ActionText → ActionText
or_reconnecting no_action = reconnecting
or_reconnecting a = a

abbrev card : String → Option ActionText → GateText × ActionText
card s none = (other s, no_action)
card s (some a) = (of_state s, a)

-- The body of the loop of `BuildState`.
unfoldable pub reader_view : (String → Option ℕ) → ℕ → ReaderStatus → ReaderView
unfolding disconnected_over
reader_view parse now r =
    let (text, action) = card r.gate_state (gate_action r.gate_state) in
    if is_gone parse now r
    then record { status = r; text = connection_lost; action = check_reader }
    else if disconnected r
    then record { status = r; text = text; action = or_reconnecting action }
    else record { status = r; text = text; action = action }

pub data Network : Type 0 where
  unknown online offline : Network

abbrev network_of : Option ServerInfo → Network
network_of none = unknown
network_of (some i) = if i.seen then (if i.online then online else offline) else unknown

-- What the window shows, with the status file where its other fields come from it unchanged.
pub record State : Type 0 where
  pub signal : Signal
  pub headline : Headline
  pub collecting : Bool
  pub core_running : Bool
  pub network : Network
  pub updated_at : String
  pub source : Option Status
  pub readers : List ReaderView

abbrev pub down : Signal → Headline → String → State
down signal headline updated_at = record {
  signal = signal;
  headline = headline;
  collecting = false;
  core_running = false;
  network = unknown;
  updated_at = updated_at;
  source = none;
  readers = [];
}

abbrev pub live_state : (String → Option ℕ) → Status → ℕ → ℕ → State
live_state parse s now hours =
    let (signal, headline) = eval_signal parse s now hours in
    record {
      signal = signal;
      headline = headline;
      collecting = str_eq s.sender_state "RUNNING";
      core_running = true;
      network = network_of s.server;
      updated_at = s.updated_at;
      source = some s;
      readers = map (reader_view parse now) s.readers;
    }

-- `BuildState`, on a file that was read or not.
unfoldable pub build_state : (String → Option ℕ) → Option Status → ℕ → ℕ → State
unfolding eval_signal reader_view
build_state parse none now hours = down gray stopped ""
build_state parse (some s) now hours =
    if parsed_older (seconds 15) now (parse s.updated_at)
    then down red not_answering s.updated_at
    else live_state parse s now hours
