-- ===== src/App/Restore.antt =====
-- internal/app/app.go, the start of `Run`: the gates that were stored come back into memory before anything is sent.
pub mod Keeps
pub mod Silent
use rfid_middleware_idro900e.Prelude.{
  ℕ, String, Bool, true, false, not, ◌&&◌, List, [], ◌∷◌, ◌++◌, Option, none, some, str_eq, ◌==◌,
  if◌then◌else◌,
}
use rfid_middleware_idro900e.Domain.{
  GateState, preflight_pending, suspended_token, suspended, no_meta, gate_eq, Secret, fingerprint,
  millis,
}
use rfid_middleware_idro900e.Store.{Db, GateRow}
use rfid_middleware_idro900e.Store.Transaction.{Result, ok, failed}
use rfid_middleware_idro900e.Store.Queue.{pending_count}
use rfid_middleware_idro900e.Store.Gates.{set_gate, gates, gate_of}
use rfid_middleware_idro900e.Gate.{Entry, Registry, new_registry, init}
use rfid_middleware_idro900e.Admission.{Log, warn, error}
use rfid_middleware_idro900e.Config.{Reader}

-- Which calls of the store fail, for each reader.
pub record Fails : Type 0 where
  pub gates : Bool
  pub count : String → Bool
  pub set : String → Bool

-- What the start has made so far.
pub record Started : Type 0 where
  pub registry : Registry
  pub db : Db
  pub log : Log

abbrev none_pending : Result ℕ → Bool
none_pending failed = false
none_pending (ok n) = n == 0

-- A state that is not a suspension has to be confirmed again.
abbrev pub kept_state : GateState → GateState
kept_state s = if suspended s then s else preflight_pending

-- The exception: a revoked token that the operator has replaced while nothing waits.
unfoldable pub is_replaced : Fails → (String → String) → Reader → GateRow → Db → Bool
is_replaced f digest r row db =
    gate_eq (kept_state row.state) suspended_token
    && (not (str_eq (fingerprint digest r.token) row.token_fingerprint)
        && none_pending (pending_count (f.count r.id) r.id db))

abbrev pub init_entry : String → Entry → Started → Started
init_entry r e st = record st { registry = init r e st.registry }

abbrev pub say : Log → Started → Started
say l st = record st { log = st.log ++ l }

abbrev pub row_entry : GateState → GateRow → Entry
row_entry s row = record {
  state = s;
  reason = row.reason;
  fingerprint = row.token_fingerprint;
  meta = row.meta;
}

abbrev pub alarm : GateState → Log
alarm s = if suspended s then (error, "GATE_RESTORED_SUSPENDED") ∷ [] else []

-- The body of the loop, on the row that was read before it.
unfoldable pub restore_row :
    Fails → (String → String) → ℕ → Reader → Option GateRow → Started → Started
unfolding is_replaced set_gate
restore_row f digest now r none st =
    init_entry r.id
      (record { state = preflight_pending; reason = ""; fingerprint = ""; meta = no_meta }) st
restore_row f digest now r (some row) st =
    if is_replaced f digest r row st.db
    then init_entry r.id (row_entry preflight_pending row) (
        say ((warn, "GATE_TOKEN_CHANGED_REVERIFY") ∷ []) (record st {
          db =
              (set_gate (f.set r.id) r.id preflight_pending "operator changed token" (millis now)
                (fingerprint digest r.token) none st.db).1;
        }))
    else say (alarm (kept_state row.state))
        (init_entry r.id (row_entry (kept_state row.state) row) st)

unfoldable pub restore_all :
    Fails → (String → String) → ℕ → List GateRow → List Reader → Started → Started
unfolding restore_row
restore_all f digest now rows [] st = st
restore_all f digest now rows (r ∷ rest) st =
    restore_all f digest now rows rest (restore_row f digest now r (gate_of r.id rows) st)

abbrev pub start : Db → Started
start db = record { registry = new_registry; db = db; log = [] }

abbrev restore_rows :
    Fails → (String → String) → ℕ → List Reader → Db → Result (List GateRow) → Result Started
restore_rows f digest now readers db failed = failed
restore_rows f digest now readers db (ok rows) =
    ok (restore_all f digest now rows readers (start db))

-- The restoration of the gates in `Run`, whose error ends it.
unfoldable pub restore : Fails → (String → String) → ℕ → List Reader → Db → Result Started
unfolding restore_all
restore f digest now readers db = restore_rows f digest now readers db (gates f.gates db)
