-- ===== src/Store.antt =====
-- internal/store/sqlite/store.go: the durable queue, the debounce state and the gate states, as the
-- tables that its SQL reads and writes. Instants are milliseconds since 1970. `AUTOINCREMENT` never
-- reuses an identifier, so the next one is part of the state; 64-bit identifiers are taken not to
-- run out. The driver's failures are an argument: which call of an operation fails. A transaction
-- that does not commit changes nothing, by `defer tx.Rollback()`. The mutex serialises the
-- operations, so each is one function of the tables. The proofs are in the modules below.
pub mod Transaction
pub mod Queue
pub mod Gates
pub mod Admit
pub mod Invariant
use Transaction.{Result, ok, failed}
use rfid_middleware_idro900e.Prelude.{
  ℕ, suc, ◌+◌, ◌-◌, String, Bool, true, false, not, ◌&&◌, ◌||◌, List, [], ◌∷◌, ◌++◌, map, Option,
  none, some, ltb, leb, ◌==◌, str_eq, bytes_eq, if◌then◌else◌, Bytes, length, select, any, count,
}
use rfid_middleware_idro900e.Domain.{QueueItem, GateState, GateMeta, no_meta}

-- A row of `queue_items`.
pub record Row : Type 0 where
  pub id : ℕ
  pub reader_id : String
  pub epc : Bytes
  pub checked_at : String
  pub checked_at_ms : ℕ
  pub enqueued_at_ms : ℕ
  pub attempt_count : ℕ
  pub next_attempt_ms : ℕ
  pub last_error_class : String
  pub last_http_status : ℕ

-- A row of `debounce_state`; its key is the pair of the first two columns.
pub record Seen : Type 0 where
  pub reader_id : String
  pub epc : Bytes
  pub last_accepted_ms : ℕ

-- A row of `gate_state`; its key is the first column.
pub record GateRow : Type 0 where
  pub reader_id : String
  pub state : GateState
  pub reason : String
  pub changed_at_ms : ℕ
  pub token_fingerprint : String
  pub meta : GateMeta

pub record Db : Type 0 where
  pub queue : List Row
  pub next_id : ℕ
  pub seen : List Seen
  pub gates : List GateRow

abbrev pub empty : Db
empty = record { queue = []; next_id = 1; seen = []; gates = [] }

abbrev pub is_of : String → Bytes → String → Bytes → Bool
is_of r e r' e' = str_eq r r' && bytes_eq e e'

-- SELECT last_accepted_at_unix_ms FROM debounce_state WHERE reader_id=? AND epc=?
unfoldable pub last_accepted : String → Bytes → List Seen → Option ℕ
last_accepted r e [] = none
last_accepted r e (s ∷ rest) =
    if is_of s.reader_id s.epc r e then some s.last_accepted_ms else last_accepted r e rest

-- INSERT INTO debounce_state … ON CONFLICT(reader_id, epc) DO UPDATE
unfoldable pub upsert_seen : String → Bytes → ℕ → List Seen → List Seen
upsert_seen r e ms [] = record { reader_id = r; epc = e; last_accepted_ms = ms } ∷ []
upsert_seen r e ms (s ∷ rest) =
    if is_of s.reader_id s.epc r e
    then record s { last_accepted_ms = ms } ∷ rest
    else s ∷ upsert_seen r e ms rest

pub record AdmitResult : Type 0 where
  pub accepted : Bool
  pub item_id : ℕ
  pub clock_backward : Bool

-- The time since the last accepted read, 0 where the clock went back.
unfoldable pub elapsed_since : ℕ → ℕ → ℕ
elapsed_since last received = if ltb received last then 0 else received - last

unfoldable pub went_backward : Option ℕ → ℕ → Bool
went_backward none received = false
went_backward (some last) received = ltb received last

-- Whether the read falls in the debounce window.
unfoldable pub debounced : Option ℕ → ℕ → ℕ → Bool
unfolding elapsed_since
debounced none received debounce = false
debounced (some last) received debounce = ltb (elapsed_since last received) debounce

-- The row that `Admit` inserts.
abbrev pub new_row : ℕ → String → Bytes → ℕ → String → Row
new_row id r e received checked_at = record {
  id = id;
  reader_id = r;
  epc = e;
  checked_at = checked_at;
  checked_at_ms = received;
  enqueued_at_ms = received;
  attempt_count = 0;
  next_attempt_ms = received;
  last_error_class = "";
  last_http_status = 0;
}

-- The calls of the driver in `Admit`.
pub data Call : Type 0 where
  begin select_last insert last_insert_id upsert commit : Call

-- A call that fails makes `Admit` return the error.
unfoldable pub attempt :
    (Call → Bool) → Call → Result (AdmitResult × Db) → Result (AdmitResult × Db)
attempt fails c rest = if fails c then failed else rest

-- The statements of the transaction, on its own copy of the tables.
abbrev pub insert_item : String → Bytes → ℕ → String → Db → Db
insert_item r e received checked_at db = record db {
  queue = db.queue ++ new_row db.next_id r e received checked_at ∷ [];
  next_id = suc db.next_id;
}

abbrev pub put_seen : String → Bytes → ℕ → Db → Db
put_seen r e received db = record db { seen = upsert_seen r e received db.seen }

unfoldable pub admit_tx :
    (Call → Bool) → String → Bytes → ℕ → String → ℕ → Db → Result (AdmitResult × Db)
unfolding attempt
admit_tx fails r e received checked_at debounce db =
    let last = last_accepted r e db.seen in
    let backward = went_backward last received in
    let id = db.next_id in
    let inserted = insert_item r e received checked_at db in
    attempt fails begin (
      attempt fails select_last (
        if debounced last received debounce
        then attempt fails commit
            (ok (record { accepted = false; item_id = 0; clock_backward = backward }, db))
        else attempt fails insert (
            attempt fails last_insert_id (
              attempt fails upsert (
                attempt fails commit (
                  ok (
                    record { accepted = true; item_id = id; clock_backward = backward },
                    put_seen r e received inserted,
                  )))))))

-- `defer tx.Rollback()`: an error leaves the tables as they were.
unfoldable pub run_tx : Result (AdmitResult × Db) → Db → Result AdmitResult × Db
run_tx r db = elim r [ failed ↦ (failed, db) | ok (a, db') ↦ (ok a, db') ]

-- `Admit`, with the instants in milliseconds.
unfoldable pub admit :
    (Call → Bool) → String → Bytes → ℕ → String → ℕ → Db → Result AdmitResult × Db
unfolding run_tx
admit fails r e received checked_at debounce db =
    run_tx (admit_tx fails r e received checked_at debounce db) db
