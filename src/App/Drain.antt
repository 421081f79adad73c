-- ===== src/App/Drain.antt =====
-- internal/app/app.go, `drainWait`: after a replay the process waits until the queue is empty, or nothing moves any more.
pub mod Ends
use rfid_middleware_idro900e.Prelude.{
  ℕ, suc, zero, ◌+◌, String, Bool, true, false, ◌&&◌, List, [], ◌∷◌, Option, none, some, ltb, ◌==◌,
  if◌then◌else◌,
}
use rfid_middleware_idro900e.Domain.{SenderState, running, halted, millis}
use rfid_middleware_idro900e.Store.{Db}
use rfid_middleware_idro900e.Store.Transaction.{Result, ok, failed}
use rfid_middleware_idro900e.Store.Queue.{depth, next_due_at, is_empty}
use rfid_middleware_idro900e.Gate.{Registry, sendable_readers}
use rfid_middleware_idro900e.Sender.{seconds}

-- What a round of the loop finds: whether the context is over, the instant, the registry and the tables, and which calls fail.
pub record Look : Type 0 where
  pub cancelled : Bool
  pub now : ℕ
  pub reg : Registry
  pub db : Db
  pub depth_fails : Bool
  pub due_fails : Bool

-- `idle` and `lastDepth`, which is -1 at first.
pub record Drain : Type 0 where
  pub idle : ℕ
  pub last_depth : Option ℕ

pub data Round : Type 0 where
  over : Round
  again : Drain → Round

abbrev pub is_halted : SenderState → Bool
is_halted running = false
is_halted halted = true

abbrev is_last : Option ℕ → ℕ → Bool
is_last none n = false
is_last (some m) n = n == m

abbrev due_later : ℕ → Result (Option ℕ) → Bool
due_later now failed = false
due_later now (ok none) = false
due_later now (ok (some due)) = ltb (millis (now + seconds 2)) due

-- The round, once the depth is known.
unfoldable pub by_depth : Look → Drain → Result ℕ → Round
by_depth l d failed = over
by_depth l d (ok n) =
    let readers = sendable_readers l.reg in
    if n == 0
    then over
    else if is_empty readers
    then (if ltb 150 (d.idle + 1) then over else again (record d { idle = d.idle + 1 }))
    else if due_later l.now (next_due_at l.due_fails readers l.db) && is_last d.last_depth n
    then over
    else again (record d { last_depth = some n })

unfoldable pub drain_round : Look → Drain → Round
unfolding by_depth
drain_round l d =
    if l.cancelled
    then over
    else if is_halted l.reg.global
    then over
    else by_depth l d (depth l.depth_fails l.db)

-- The loop, over what its rounds find; `again` where it would go on.
unfoldable pub drain_wait : List Look → Drain → Round
unfolding drain_round
drain_wait [] d = again d
drain_wait (l ∷ ls) d = elim (drain_round l d) [ over ↦ over | again d' ↦ drain_wait ls d' ]

abbrev pub start_drain : Drain
start_drain = record { idle = 0; last_depth = none }
