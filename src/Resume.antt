-- ===== src/Resume.antt =====
-- internal/app/resume.go: `QueueResume`, the operator's command for a reader that is suspended. Its result is the number of
-- pending rows and the number of those that were discarded; the message is made of them.
pub mod Outcome
use rfid_middleware_idro900e.Prelude.{
  ℕ, String, Bool, true, false, not, ◌&&◌, ◌||◌, Option, none, some, str_eq, if◌then◌else◌,
}
use rfid_middleware_idro900e.Domain.{suspended, preflight_pending}
use rfid_middleware_idro900e.Store.{Db, GateRow}
use rfid_middleware_idro900e.Store.Transaction.{Result, ok, failed}
use rfid_middleware_idro900e.Store.Queue.{pending_count, discard_pending}
use rfid_middleware_idro900e.Store.Gates.{set_gate, gate_of}

-- What the surroundings say: the reader is in the configuration, the lock of the running service can be had, the
-- store opens; and which calls of the store fail.
pub record Given : Type 0 where
  pub configured : Bool
  pub locked : Bool
  pub opened : Bool
  pub gates_fail : Bool
  pub count_fails : Bool
  pub discard_fails : Bool
  pub set_fails : Bool

abbrev pub Resumed : Type 0
Resumed = Result (ℕ × ℕ) × Db

-- The last step: the reader waits for its preflight again, under its old fingerprint.
unfoldable pub release : Given → String → ℕ → GateRow → ℕ → ℕ → Db → Resumed
release g r now row pending discarded db =
    let (res, db') =
      set_gate g.set_fails r preflight_pending "operator resume" now row.token_fingerprint none
        db in
    (elim res [ failed ↦ failed | ok _ ↦ ok (pending, discarded) ], db')

unfoldable pub after_discard : Given → String → ℕ → GateRow → ℕ → Result ℕ × Db → Resumed
unfolding release
after_discard g r now row pending (failed, db) = (failed, db)
after_discard g r now row pending (ok n, db) = release g r now row pending n db

unfoldable pub after_count : Given → String → String → ℕ → GateRow → Db → Result ℕ → Resumed
unfolding release after_discard
after_count g what r now row db failed = (failed, db)
after_count g what r now row db (ok n) =
    if str_eq what "discard"
    then after_discard g r now row n (discard_pending g.discard_fails r db)
    else release g r now row n 0 db

unfoldable pub resume_row : Given → String → String → ℕ → Db → Option GateRow → Resumed
unfolding after_count
resume_row g what r now db none = (failed, db)
resume_row g what r now db (some row) =
    if suspended row.state
    then after_count g what r now row db (pending_count g.count_fails r db)
    else (failed, db)

-- `QueueResume`
unfoldable pub queue_resume : Given → String → String → ℕ → Db → Resumed
unfolding resume_row
queue_resume g what r now db =
    if not (str_eq what "send") && not (str_eq what "discard")
    then (failed, db)
    else if not g.configured || not g.locked || not g.opened || g.gates_fail
    then (failed, db)
    else resume_row g what r now db (gate_of r db.gates)
