-- ===== src/App/Sweep.antt =====
-- internal/app/app.go: a minute of the sweeper, which lets go of rows and instants that are too old and warns before that.
pub mod Keeps
use Prim.Native.Nat.{max}
use rfid_middleware_idro900e.Prelude.{
  ℕ, ◌+◌, ◌-◌, ◌*◌, ◌/◌, String, Bool, true, false, List, [], ◌∷◌, ◌++◌, Option, none, some, ltb,
  if◌then◌else◌,
}
use rfid_middleware_idro900e.Domain.{millis}
use rfid_middleware_idro900e.Store.{Db}
use rfid_middleware_idro900e.Store.Transaction.{Result, ok, failed}
use rfid_middleware_idro900e.Store.Queue.{
  ExpiredItem, expire_before, cleanup_debounce, oldest_checked_at,
}
use rfid_middleware_idro900e.Admission.{Log, warn, error}
use rfid_middleware_idro900e.Sender.{seconds}

-- The two durations of the configuration, in nanoseconds, and which calls of the store fail.
pub record Sweeper : Type 0 where
  pub max_age : ℕ
  pub debounce : ℕ
  pub expire_fails : Bool
  pub cleanup_fails : Bool
  pub oldest_fails : Bool

-- `keep`: twice the debounce interval, and ten minutes at least.
abbrev pub keep_for : ℕ → ℕ
keep_for debounce = if ltb (2 * debounce) (seconds 600) then seconds 600 else 2 * debounce

unfoldable pub expired_log : List ExpiredItem → Log
expired_log [] = []
expired_log (e ∷ rest) = (warn, "QUEUE_ITEM_EXPIRED") ∷ expired_log rest

abbrev expire_log : Result (List ExpiredItem) → Log
expire_log failed = (error, "QUEUE_EXPIRE_FAILED") ∷ []
expire_log (ok items) = expired_log items

abbrev cleanup_log : Result ℕ → Log
cleanup_log failed = (warn, "DEBOUNCE_CLEANUP_FAILED") ∷ []
cleanup_log (ok n) = []

abbrev old_enough : ℕ → ℕ → Option ℕ → Log
old_enough d now none = []
old_enough d now (some t) = if ltb (t + d) now then (error, "QUEUE_NEAR_EXPIRY") ∷ [] else []

abbrev near_expiry : (String → Option ℕ) → ℕ → ℕ → Result (Option String) → Log
near_expiry parse max_age now failed = []
near_expiry parse max_age now (ok none) = []
near_expiry parse max_age now (ok (some text)) = old_enough (max_age * 9 / 10) now (parse text)

-- A round of the loop. `parse` reads an instant that RFC 3339 writes.
unfoldable pub sweep : Sweeper → (String → Option ℕ) → ℕ → Db → Db × Log
unfolding expired_log
sweep s parse now db =
    let (expired, db') = expire_before s.expire_fails (millis (now - s.max_age)) db in
    let (cleaned, db'') =
      cleanup_debounce s.cleanup_fails (millis (now - keep_for s.debounce)) db' in
    (
      db'',
      (expire_log expired ++ cleanup_log cleaned)
          ++ near_expiry parse s.max_age now (oldest_checked_at s.oldest_fails db''),
    )
