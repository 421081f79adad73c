-- ===== src/Admission.antt =====
-- internal/admission/admission.go: what becomes of a tag that was read. The callbacks are noted in
-- the outcome, and a log entry is its level and event name. The proofs are in the module below.
pub mod Keeps
use rfid_middleware_idro900e.Prelude.{
  ℕ, String, Bool, true, false, List, [], ◌∷◌, ◌++◌, if◌then◌else◌,
}
use rfid_middleware_idro900e.Domain.{TagRead, millis}
use rfid_middleware_idro900e.Store.{Db, Call, AdmitResult, admit}
use rfid_middleware_idro900e.Store.Transaction.{Result, ok, failed}
use rfid_middleware_idro900e.Gate.{Registry, is_suspended}

-- The levels of internal/logging.
pub data Level : Type 0 where
  debug info warn error : Level

abbrev pub Log : Type 0
Log = List (Level × String)

-- The fields of `Service` that decide something: the window, in nanoseconds, and whether the two
-- optional callbacks are set.
pub record Service : Type 0 where
  pub debounce : ℕ
  pub has_wake : Bool
  pub has_on_tag : Bool

pub record Handled : Type 0 where
  pub db : Db
  pub log : Log
  pub woken : Bool
  pub observed : List String

-- What `Handle` logs, and whether it wakes the sender, once the store has answered.
abbrev answer_log : Result AdmitResult → Log
answer_log failed = (error, "ENQUEUE_FAILED") ∷ []
answer_log (ok res) =
    (if res.clock_backward then (warn, "CLOCK_MOVED_BACKWARD") ∷ [] else [])
    ++ (if res.accepted then (info, "SCAN_ENQUEUED") ∷ [] else (debug, "DEBOUNCE_DROP") ∷ [])

abbrev answer_wakes : Bool → Result AdmitResult → Bool
answer_wakes has_wake failed = false
answer_wakes has_wake (ok res) = if res.accepted then has_wake else false

-- `Handle`. `format` is the text of an instant in RFC 3339 with nanoseconds, in the machine's zone.
unfoldable pub handle :
    (format : ℕ → String) → (Call → Bool) → Service → Registry → TagRead → Db → Handled
handle format fails s reg read db =
    let observed = if s.has_on_tag then read.reader_id ∷ [] else [] in
    let checked_at = format read.received_at in
    let (res, db') =
      admit fails read.reader_id read.epc (millis read.received_at) checked_at (millis s.debounce)
        db in
    if is_suspended read.reader_id reg
    then record {
      db = db;
      log = (warn, "SCAN_DROPPED_SUSPENDED") ∷ [];
      woken = false;
      observed = observed;
    }
    else record {
      db = db';
      log = answer_log res;
      woken = answer_wakes s.has_wake res;
      observed = observed;
    }
