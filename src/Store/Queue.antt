-- ===== src/Store/Queue.antt =====
-- The operations of store.go on `queue_items` and `debounce_state`, but for `Admit`. Each runs one
-- statement, or one transaction, which the argument `fails` makes fail.
pub mod Order
use Prim.Native.Nat.{min}
use rfid_middleware_idro900e.Prelude.{
  ℕ, suc, ◌+◌, String, Bool, true, false, not, ◌&&◌, ◌||◌, List, [], ◌∷◌, ◌++◌, map, Option, none,
  some, ltb, leb, ◌==◌, str_eq, if◌then◌else◌, Bytes, length, select, any, count,
}
use rfid_middleware_idro900e.Domain.{QueueItem}
use rfid_middleware_idro900e.Store.Transaction.{Result, ok, failed}
use rfid_middleware_idro900e.Store.{Row, Seen, Db, is_of}

abbrev pub to_item : Row → QueueItem
to_item r = record {
  id = r.id;
  reader_id = r.reader_id;
  epc = r.epc;
  checked_at = r.checked_at;
  checked_at_ms = r.checked_at_ms;
  attempt_count = r.attempt_count;
  next_attempt_ms = r.next_attempt_ms;
}

-- `reader_id IN (…)`
unfoldable pub one_of : List String → String → Bool
one_of [] r = false
one_of (x ∷ xs) r = str_eq x r || one_of xs r

-- ORDER BY checked_at_unix_ms, id
abbrev pub precedes : Row → Row → Bool
precedes a b =
    ltb a.checked_at_ms b.checked_at_ms || (a.checked_at_ms == b.checked_at_ms && leb a.id b.id)

abbrev pub earlier : Row → Option Row → Row
earlier r none = r
earlier r (some q) = if precedes r q then r else q

-- ORDER BY … LIMIT 1
unfoldable pub earliest : List Row → Option Row
earliest [] = none
earliest (r ∷ rs) = some (earlier r (earliest rs))

abbrev pub is_due : ℕ → List String → Row → Bool
is_due now readers r = leb r.next_attempt_ms now && one_of readers r.reader_id

abbrev pub is_empty {ℓ} : {A : Type ℓ} → List A → Bool
is_empty [] = true
is_empty (x ∷ xs) = false

-- `NextDue`; without sendable readers it runs no query, so that it cannot fail.
unfoldable pub next_due : Bool → ℕ → List String → Db → Result (Option Row)
next_due fails now readers db =
    if is_empty readers
    then ok none
    else if fails
    then failed
    else ok (earliest (select (is_due now readers) db.queue))

abbrev pub min_next : Row → Option ℕ → Option ℕ
min_next r none = some r.next_attempt_ms
min_next r (some m) = some (min r.next_attempt_ms m)

unfoldable pub least_next : List Row → Option ℕ
least_next [] = none
least_next (r ∷ rs) = min_next r (least_next rs)

-- `NextDueAtMS`; MIN over no rows is NULL.
unfoldable pub next_due_at : Bool → List String → Db → Result (Option ℕ)
next_due_at fails readers db =
    if is_empty readers
    then ok none
    else if fails
    then failed
    else ok (least_next (select (λ r. one_of readers r.reader_id) db.queue))

-- One statement that changes the queue: on an error the tables stay.
abbrev exec_queue : Bool → (List Row → List Row) → Db → Result (Unit {0}) × Db
exec_queue fails f db = if fails then (failed, db) else (ok tt, record db { queue = f db.queue })

-- DELETE FROM queue_items WHERE id=?
unfoldable pub without_id : ℕ → List Row → List Row
without_id id = select (λ r. not (r.id == id))

-- `Complete`
unfoldable pub complete : Bool → ℕ → Db → Result (Unit {0}) × Db
complete fails id = exec_queue fails (without_id id)

abbrev pub on_id : ℕ → (Row → Row) → Row → Row
on_id id f r = if r.id == id then f r else r

abbrev pub retried : ℕ → String → ℕ → Row → Row
retried next class status r = record r {
  attempt_count = r.attempt_count + 1;
  next_attempt_ms = next;
  last_error_class = class;
  last_http_status = status;
}

abbrev pub marked : String → ℕ → Row → Row
marked class status r = record r {
  attempt_count = r.attempt_count + 1;
  last_error_class = class;
  last_http_status = status;
}

-- `RetryLater`
unfoldable pub retry_later : Bool → ℕ → ℕ → String → ℕ → Db → Result (Unit {0}) × Db
retry_later fails id next class status =
    exec_queue fails (map (on_id id (retried next class status)))

-- `MarkAttemptKeepDue`
unfoldable pub mark_attempt_keep_due : Bool → ℕ → String → ℕ → Db → Result (Unit {0}) × Db
mark_attempt_keep_due fails id class status =
    exec_queue fails (map (on_id id (marked class status)))

pub record ExpiredItem : Type 0 where
  pub reader_id : String
  pub epc : Bytes
  pub checked_at : String

abbrev pub to_expired : Row → ExpiredItem
to_expired r = record { reader_id = r.reader_id; epc = r.epc; checked_at = r.checked_at }

abbrev pub is_before : ℕ → Row → Bool
is_before cutoff r = ltb r.checked_at_ms cutoff

-- `ExpireBefore`: the rows are read, then deleted where there are any, in one transaction, of which
-- any call may fail.
unfoldable pub expire_before : Bool → ℕ → Db → Result (List ExpiredItem) × Db
expire_before fails cutoff db =
    let out = map to_expired (select (is_before cutoff) db.queue) in
    if fails
    then (failed, db)
    else if is_empty out
    then (ok out, db)
    else (ok out, record db { queue = select (λ r. not (is_before cutoff r)) db.queue })

-- EXISTS (SELECT 1 FROM queue_items q WHERE q.reader_id = … AND q.epc = …)
abbrev pub has_pending : List Row → Seen → Bool
has_pending queue s = any (λ r. is_of r.reader_id r.epc s.reader_id s.epc) queue

abbrev pub is_stale : ℕ → List Row → Seen → Bool
is_stale before queue s = ltb s.last_accepted_ms before && not (has_pending queue s)

-- `CleanupDebounce`, with the number of rows that it deletes.
unfoldable pub cleanup_debounce : Bool → ℕ → Db → Result ℕ × Db
cleanup_debounce fails before db = if fails then (failed, db) else (
  ok (count (is_stale before db.queue) db.seen),
  record db { seen = select (λ s. not (is_stale before db.queue s)) db.seen },
)

-- `Depth`
unfoldable pub depth : Bool → Db → Result ℕ
depth fails db = if fails then failed else ok (length db.queue)

abbrev pub of_reader : String → Row → Bool
of_reader r row = str_eq row.reader_id r

-- `PendingCount`
unfoldable pub pending_count : Bool → String → Db → Result ℕ
pending_count fails r db = if fails then failed else ok (count (of_reader r) db.queue)

-- `DiscardPending`, with the number of rows that it deletes.
unfoldable pub discard_pending : Bool → String → Db → Result ℕ × Db
discard_pending fails r db = if fails then (failed, db) else (
  ok (count (of_reader r) db.queue),
  record db { queue = select (λ row. not (of_reader r row)) db.queue },
)

-- ORDER BY checked_at_unix_ms LIMIT 1 leaves open which of several oldest rows is read; all of them
-- carry the same instant. The first one stands here.
abbrev older : Row → Option Row → Row
older r none = r
older r (some q) = if leb r.checked_at_ms q.checked_at_ms then r else q

unfoldable pub oldest : List Row → Option Row
oldest [] = none
oldest (r ∷ rs) = some (older r (oldest rs))

-- `OldestCheckedAt`
unfoldable pub oldest_checked_at : Bool → Db → Result (Option String)
unfolding oldest
oldest_checked_at fails db =
    if fails
    then failed
    else ok (elim (oldest db.queue) [ none ↦ none | some r ↦ some r.checked_at ])
