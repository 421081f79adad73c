-- ===== src/App/Status.antt =====
-- internal/health/status.go and `writeStatus` of internal/app/app.go: the snapshot that the window reads.
use rfid_middleware_idro900e.Prelude.{
  ℕ, String, Bool, true, List, [], ◌∷◌, map, Option, none, some, str_eq, if◌then◌else◌,
}
use rfid_middleware_idro900e.Prelude.Int.{ℤ}
use rfid_middleware_idro900e.Domain.{
  GateState, preflight_pending, preflight_retry, active, active_warning, suspended_token,
  suspended_config, suspended_rebind, SenderState, running, halted, GateMeta, no_meta,
}
use rfid_middleware_idro900e.Store.{Db}
use rfid_middleware_idro900e.Store.Transaction.{Result, ok, failed}
use rfid_middleware_idro900e.Store.Queue.{depth, oldest_checked_at, pending_count}
use rfid_middleware_idro900e.Gate.{Entry, Entries, Registry, get_entry, snapshot}
use rfid_middleware_idro900e.Config.{Reader}
use rfid_middleware_idro900e.App.Telemetry.{Telemetry, ReaderTele, server, queue_depth_observed}

abbrev pub gate_text : GateState → String
gate_text preflight_pending = "PREFLIGHT_PENDING"
gate_text preflight_retry = "PREFLIGHT_RETRY"
gate_text active = "ACTIVE"
gate_text active_warning = "ACTIVE_WARNING"
gate_text suspended_token = "SUSPENDED_TOKEN"
gate_text suspended_config = "SUSPENDED_CONFIG"
gate_text suspended_rebind = "SUSPENDED_REBIND"

abbrev pub sender_text : SenderState → String
sender_text running = "RUNNING"
sender_text halted = "HALTED_REQUEST_BUG"

pub record NtpInfo : Type 0 where
  pub checked : Bool
  pub skew_sec : ℤ
  pub at : String

pub record ServerInfo : Type 0 where
  pub seen : Bool
  pub online : Bool
  pub last_ok : String

pub record ReaderStatus : Type 0 where
  pub id : String
  pub gate_state : String
  pub gate_reason : String
  pub event_name : String
  pub booth_name : String
  pub unit_name : String
  pub cooldown_sec : ℤ
  pub conn_state : String
  pub conn_since : String
  pub session_id : String
  pub pending : ℕ
  pub last_tag_at : String
  pub last_success_at : String

pub record Status : Type 0 where
  pub schema : ℕ
  pub updated_at : String
  pub sender_state : String
  pub queue_depth : ℕ
  pub queue_non_empty_since : String
  pub oldest_checked_at : String
  pub pid : ℕ
  pub version : String
  pub mode : String
  pub started_at : String
  pub ntp : Option NtpInfo
  pub server : Option ServerInfo
  pub success_since_start : ℕ
  pub readers : List ReaderStatus

-- What the process is given when it starts; `format` writes an instant as RFC 3339.
pub record Process : Type 0 where
  pub format : ℕ → String
  pub pid : ℕ
  pub version : String
  pub mode : String
  pub started_at : String
  pub depth_fails : Bool
  pub oldest_fails : Bool
  pub count_fails : String → Bool

abbrev pub format_or : (ℕ → String) → Option ℕ → String
format_or format none = ""
format_or format (some t) = format t

-- The value of a call whose error is ignored: the zero value where it failed.
abbrev zero_or : Result ℕ → ℕ
zero_or failed = 0
zero_or (ok n) = n

abbrev text_or : Result (Option String) → String
text_or failed = ""
text_or (ok none) = ""
text_or (ok (some s)) = s

-- A missing key of a Go map has the zero value: a gate state that is no state, and a reader that was never connected.
abbrev pub gate_or : Option Entry → String
gate_or none = ""
gate_or (some e) = gate_text e.state

abbrev reason_or : Option Entry → String
reason_or none = ""
reason_or (some e) = e.reason

abbrev pub entry_meta : Option Entry → GateMeta
entry_meta none = no_meta
entry_meta (some e) = e.meta

unfoldable pub tele_of : String → List (String × ReaderTele) → Option ReaderTele
tele_of id [] = none
tele_of id ((k, r) ∷ rest) = if str_eq k id then some r else tele_of id rest

abbrev conn_text : Option ReaderTele → String
conn_text none = "DISCONNECTED"
conn_text (some r) = if r.connected then "CONNECTED" else "DISCONNECTED"

abbrev since_text : (ℕ → String) → Option ReaderTele → String
since_text format none = ""
since_text format (some r) = format r.conn_since

abbrev tag_text : (ℕ → String) → Option ReaderTele → String
tag_text format none = ""
tag_text format (some r) = format_or format r.last_tag_at

abbrev success_text : (ℕ → String) → Option ReaderTele → String
success_text format none = ""
success_text format (some r) = format_or format r.last_success_at

-- The body of the loop over the readers.
unfoldable pub reader_status : Process → Entries → Telemetry → Db → Reader → ReaderStatus
unfolding tele_of
reader_status p entries t db r =
    let e = get_entry r.id entries in
    let m = entry_meta e in
    let rt = tele_of r.id t.readers in
    record {
      id = r.id;
      gate_state = gate_or e;
      gate_reason = reason_or e;
      event_name = m.event_name;
      booth_name = m.booth_name;
      unit_name = m.unit_name;
      cooldown_sec = m.cooldown_sec;
      conn_state = conn_text rt;
      conn_since = since_text p.format rt;
      session_id = r.session_id;
      pending = zero_or (pending_count (p.count_fails r.id) r.id db);
      last_tag_at = tag_text p.format rt;
      last_success_at = success_text p.format rt;
    }

abbrev ntp_of : (ℕ → String) → Telemetry → Option NtpInfo
ntp_of format t =
    if t.ntp_checked
    then some (record { checked = true; skew_sec = t.skew_sec; at = format_or format t.skew_at })
    else none

abbrev server_of : (ℕ → String) → Bool × Bool × Option ℕ → Option ServerInfo
server_of format (seen, online, ok_at) =
    if seen
    then some (record { seen = true; online = online; last_ok = format_or format ok_at })
    else none

-- `writeStatus` at an instant: the snapshot, and the telemetry, which has observed the depth.
unfoldable pub write_status :
    Process → List Reader → ℕ → Registry → Telemetry → Db → Status × Telemetry
unfolding reader_status
write_status p readers now reg t db =
    let (entries, global) = snapshot reg in
    let n = zero_or (depth p.depth_fails db) in
    let t' = queue_depth_observed n now t in
    (
      record {
        schema = 2;
        updated_at = p.format now;
        sender_state = sender_text global;
        queue_depth = n;
        queue_non_empty_since = format_or p.format t'.queue_non_empty_since;
        oldest_checked_at = text_or (oldest_checked_at p.oldest_fails db);
        pid = p.pid;
        version = p.version;
        mode = p.mode;
        started_at = p.started_at;
        ntp = ntp_of p.format t;
        server = server_of p.format (server t);
        success_since_start = t.success_since_start;
        readers = map (reader_status p entries t db) readers;
      },
      t',
    )
