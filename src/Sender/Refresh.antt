-- ===== src/Sender/Refresh.antt =====
-- internal/sender/metarefresh.go: the meta of a reader that sends is asked for again from time to time. The
-- registry may change while the answer is under way, so a tick is two functions: whether it asks, and what it
-- makes of the answer.
pub mod Keeps
use rfid_middleware_idro900e.Prelude.{
  ℕ, ◌+◌, ◌-◌, String, Bool, true, false, not, ◌||◌, List, [], ◌∷◌, ◌++◌, Option, none, some, ◌==◌,
  if◌then◌else◌,
}
use rfid_middleware_idro900e.Prelude.Int.{ℤ, pos, eq_ℤ}
use rfid_middleware_idro900e.Domain.{millis, GateState, GateMeta, active, active_warning, sendable}
use rfid_middleware_idro900e.Store.Transaction.{Result, ok, failed}
use rfid_middleware_idro900e.Gate.{Entry, Registry, Persister, Written, Refresh, get, refresh_meta}
use rfid_middleware_idro900e.Admission.{Log, info, warn}
use rfid_middleware_idro900e.Congkong.Decode.{preflight_meta}
use rfid_middleware_idro900e.Congkong.Classify.{HttpResult}
use rfid_middleware_idro900e.Sender.{World, seconds}

-- `nextDelay`, from the random number, which is below `span`.
abbrev pub span : ℕ
span = seconds 20 + 1

unfoldable pub next_delay : ℕ → ℕ
next_delay n = (seconds 60 + n) - seconds 10

-- The tests of `tick` before the request.
abbrev asks_for : Option Entry → Bool
asks_for none = false
asks_for (some e) = sendable e.state

unfoldable pub asks : String → World → Bool
asks r w = asks_for (get r w.reg)

abbrev meta_state : GateMeta → GateState
meta_state m = if eq_ℤ m.cooldown_sec (pos 0) then active_warning else active

abbrev meta_reason : GateMeta → String
meta_reason m = if eq_ℤ m.cooldown_sec (pos 0) then "cooldownSec=0 — 재시도 멱등성 미보장" else ""

abbrev refresh_log : Refresh → Log
refresh_log x = elim x.err [
  | failed ↦ (warn, "META_REFRESH_PERSIST_FAILED") ∷ []
  | ok _ ↦ if x.applied then (info, "META_REFRESHED") ∷ [] else []
]

unfoldable pub apply_meta : Persister → String → ℕ → Option GateMeta → World → World
apply_meta p r now none w = w
apply_meta p r now (some m) w =
    let g = refresh_meta p r (meta_state m) (meta_reason m) (millis now) m w.reg w.db in
    record w { reg = g.registry; db = g.db; log = w.log ++ refresh_log g.result }

-- The rest of `tick`, once the answer is there.
unfoldable pub on_answer : Persister → String → ℕ → HttpResult → World → World
unfolding apply_meta
on_answer p r now res w =
    if res.transport_err || res.body_err || not (res.status == 200)
    then w
    else apply_meta p r now (preflight_meta res.body) w

-- `tick`, where nothing changes between the request and the answer.
unfoldable pub tick : Persister → String → ℕ → HttpResult → World → World
unfolding asks on_answer
tick p r now res w = if asks r w then on_answer p r now res w else w
