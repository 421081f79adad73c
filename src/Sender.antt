-- ===== src/Sender.antt =====
-- internal/sender: the worker that sends the queued rows one by one. Instants and durations are in
-- nanoseconds, as Go's are; `millis` makes them milliseconds. What the server answers, and which
-- calls of the store fail, are arguments; the callbacks and the log are noted in the world.
pub mod Delivery
pub mod Tables
pub mod Rows
pub mod Counting
pub mod Work
pub mod Progress
pub mod Waits
pub mod Stops
pub mod Preflight
pub mod Refresh
use Prim.Native.Nat.{min}
use rfid_middleware_idro900e.Prelude.{
  ℕ, zero, suc, ◌+◌, ◌-◌, ◌*◌, String, Bool, true, false, not, List, [], ◌∷◌, ◌++◌, Option, none,
  some, ltb, leb, ◌==◌, str_eq, ◌||◌, if◌then◌else◌, Bytes,
}
use rfid_middleware_idro900e.Domain.{
  millis, QueueItem, DeliveryDecision, complete, drop, retry, suspend_reader, halt_global,
  SenderState, running, halted, suspended_token, suspended_config, Secret,
}
use rfid_middleware_idro900e.Store.{Row, Db}
use rfid_middleware_idro900e.Store.Transaction.{Result, ok, failed}
use rfid_middleware_idro900e.Store.Queue.{
  next_due, next_due_at, retry_later, mark_attempt_keep_due, to_item, complete as complete_row,
}
use rfid_middleware_idro900e.Gate.{
  Registry, store, set, sendable_readers, halt_global as halt_sending,
}
use rfid_middleware_idro900e.Admission.{Level, Log, info, warn, error}
use rfid_middleware_idro900e.Congkong.Class
use rfid_middleware_idro900e.Congkong.Classify.{HttpResult, classify}

abbrev pub seconds : ℕ → ℕ
seconds n = n * 1_000_000_000

-- `maxIdleWait`
abbrev pub max_idle_wait : ℕ
max_idle_wait = seconds 30

-- `backoffDelay`
unfoldable pub backoff_delay : ℕ → ℕ
backoff_delay failed_attempts =
    if leb failed_attempts 1
    then seconds 5
    else if failed_attempts == 2
    then seconds 30
    else seconds 120

-- What `CheckIn` sends: the token is in the path, the other two in the body.
pub record Post : Type 0 where
  pub token : Secret
  pub epc : Bytes
  pub checked_at : String

-- The fields of `Sender` that decide something, with the server's answer to each request.
pub record Sender : Type 0 where
  pub max_age : ℕ
  pub creds : String → Option Secret
  pub answer : Post → HttpResult
  pub has_on_success : Bool
  pub has_on_contact : Bool

-- Which calls of the store fail.
pub record Faults : Type 0 where
  pub read : Bool
  pub peek : Bool
  pub queue : Bool
  pub gate : Bool

abbrev pub no_faults : Faults
no_faults = record { read = false; peek = false; queue = false; gate = false }

pub record World : Type 0 where
  pub reg : Registry
  pub db : Db
  pub log : Log
  pub posts : List Post
  pub contacts : List Bool
  pub succeeded : List String

abbrev say : Level → String → World → World
say l e w = record w { log = w.log ++ (l, e) ∷ [] }

-- `idleWait`: 0 where the next row is due already.
abbrev capped_wait : Result (Option ℕ) → ℕ → ℕ
capped_wait (ok (some due)) now = min ((due - millis now) * 1_000_000) max_idle_wait
capped_wait _ now = max_idle_wait

unfoldable pub idle_wait : Bool → ℕ → World → ℕ
idle_wait fails now w = capped_wait (next_due_at fails (sendable_readers w.reg) w.db) now

-- A row is deleted; then the rest goes on, or the failure is logged and ends the delivery.
abbrev acknowledge : Bool → ℕ → World → (World → World) → World
acknowledge fails id w rest =
    let (res, db') = complete_row fails id w.db in
    elim res [ failed ↦ say error "QUEUE_ACK_FAILED" w | ok _ ↦ rest (record w { db = db' }) ]

-- The level at which a dropped row is logged.
abbrev drop_level : String → Level
drop_level class =
    if str_eq class Class.checked_at_format
      || str_eq class Class.checked_at_range
      || str_eq class Class.empty_uid_bug
    then error
    else if str_eq class Class.barcode_not_found
    then info
    else warn

abbrev note_success : Bool → String → World → World
note_success set r w = record w { succeeded = if set then w.succeeded ++ r ∷ [] else w.succeeded }

-- The switch of `deliver` on the decision.
unfoldable pub settle :
    Sender → Faults → ℕ → QueueItem → HttpResult → DeliveryDecision → String → World → World
settle s f now item res complete class w =
    acknowledge f.queue item.id w
      (λ w'. note_success s.has_on_success item.reader_id (say info "SEND_RESULT" w'))
settle s f now item res drop class w =
    acknowledge f.queue item.id w (say (drop_level class) "SEND_RESULT")
settle s f now item res retry class w =
    let next = millis (now + backoff_delay (item.attempt_count + 1)) in
    let (r, db') = retry_later f.queue item.id next class res.status w.db in
    elim r [
      | failed ↦ say error "QUEUE_RETRY_FAILED" w
      | ok _ ↦ say warn "SEND_RESULT" (record w { db = db' })
    ]
settle s f now item res suspend_reader class w =
    let w' = acknowledge f.queue item.id w (λ v. v) in
    let g =
      set (store f.gate) item.reader_id suspended_token "404 — 토큰 회수/무효" (millis now) "" none w'.reg
        w'.db in
    say error "TOKEN_SUSPENDED" (record w' { reg = g.registry; db = g.db })
settle s f now item res halt_global class w =
    let (r, db') = mark_attempt_keep_due f.queue item.id class res.status w.db in
    let w' : World = elim r [
      | failed ↦ say error "QUEUE_MARK_FAILED" w
      | ok _ ↦ record w { db = db' }
    ] in
    say error "SENDER_HALTED_REQUEST_BUG" (record w' { reg = halt_sending w'.reg })

-- The request and its answer are noted before the answer is classified.
abbrev noted : Bool → Post → HttpResult → World → World
noted set p res w = record w {
  posts = w.posts ++ p ∷ [];
  contacts = if set then w.contacts ++ not res.transport_err ∷ [] else w.contacts;
}

unfoldable pub deliver_with : Sender → Faults → ℕ → QueueItem → Option Secret → World → World
unfolding settle
deliver_with s f now item none w =
    let g =
      set (store f.gate) item.reader_id suspended_config "reader 가 설정에 없음" (millis now) "" none
        w.reg w.db in
    say error "READER_TOKEN_MISSING" (record w { reg = g.registry; db = g.db })
deliver_with s f now item (some token) w =
    let p : Post = record { token = token; epc = item.epc; checked_at = item.checked_at } in
    let res = s.answer p in
    let (decision, class) = classify res in
    settle s f now item res decision class (noted s.has_on_contact p res w)

-- Whether the row is older than `max_age`.
abbrev pub is_expired : ℕ → ℕ → QueueItem → Bool
is_expired max_age now item = ltb item.checked_at_ms (millis (now - max_age))

abbrev expire : Bool → ℕ → World → World
expire fails id w =
    let (res, db') = complete_row fails id w.db in
    elim res [ failed ↦ w | ok _ ↦ say warn "QUEUE_ITEM_EXPIRED" (record w { db = db' }) ]

-- `deliver`
unfoldable pub deliver : Sender → Faults → ℕ → QueueItem → World → World
unfolding deliver_with
deliver s f now item w =
    if is_expired s.max_age now item
    then expire f.queue item.id w
    else deliver_with s f now item (s.creds item.reader_id) w

-- What a round of `Run` leads to: the world, and how long the loop waits for a signal, if it waits.
abbrev pub Round : Type 0
Round = World × Option ℕ

unfoldable pub picked : Sender → Faults → ℕ → World → Result (Option Row) → Round
unfolding idle_wait deliver
picked s f now w failed = (say error "QUEUE_READ_FAILED" w, some (seconds 5))
picked s f now w (ok none) = (w, some (idle_wait f.peek now w))
picked s f now w (ok (some row)) = (deliver s f now (to_item row) w, none)

unfoldable pub in_state : Sender → Faults → ℕ → World → SenderState → Round
unfolding picked
in_state s f now w halted = (w, some max_idle_wait)
in_state s f now w running =
    picked s f now w (next_due f.read (millis now) (sendable_readers w.reg) w.db)

-- One round of the loop of `Run`, at the instant that the clock shows it.
unfoldable pub round : Sender → Faults → ℕ → World → Round
unfolding in_state
round s f now w = in_state s f now w w.reg.global

unfoldable pub unless_waiting : World → Option ℕ → World × Option ℕ → World × Option ℕ
unless_waiting w none rest = rest
unless_waiting w (some n) rest = (w, some n)

-- What a round meets: the instant that it reads from the clock, which calls of the store fail in it, and how the
-- server would answer.
pub record Turn : Type 0 where
  pub now : ℕ
  pub faults : Faults
  pub answer : Post → HttpResult

abbrev pub at_turn : Sender → Turn → Sender
at_turn s t = record s { answer = t.answer }

-- Rounds of `Run` until the loop waits, each with a turn of its own: how long it waits, or nothing where the turns are
-- over first. Nothing else changes the tables and the gates meanwhile.
unfoldable pub until_wait : List Turn → Sender → World → World × Option ℕ
unfolding round unless_waiting
until_wait [] s w = (w, none)
until_wait (t ∷ ts) s w =
    let (w', d) = round (at_turn s t) t.faults t.now w in
    let rest = until_wait ts s w' in unless_waiting w' d rest
