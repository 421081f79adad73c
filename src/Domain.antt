-- ===== src/Domain.antt =====
-- internal/domain/domain.go: the values that the components exchange. An instant is a number of
-- nanoseconds since 1970, and a duration one of nanoseconds; instants before 1970 are left out.
use rfid_middleware_idro900e.Prelude.{
  ℕ, ◌/◌, ◌≡◌, ◌↔◌, String, Bool, true, false, ◌&&◌, ◌==◌, str_eq, str_eq_iff, if◌then◌else◌, Bytes,
  arith,
}
use rfid_middleware_idro900e.Prelude.Int.{ℤ, pos, eq_ℤ, eq_ℤ_iff}

-- `time.Time.UnixMilli` and `time.Duration.Milliseconds`
unfoldable pub millis : ℕ → ℕ
millis t = t / 1_000_000

pub record TagRead : Type 0 where
  pub reader_id : String
  pub epc : Bytes
  pub received_at : ℕ
  pub raw_line : Bytes

pub record QueueItem : Type 0 where
  pub id : ℕ
  pub reader_id : String
  pub epc : Bytes
  pub checked_at : String
  pub checked_at_ms : ℕ
  pub attempt_count : ℕ
  pub next_attempt_ms : ℕ

pub data DeliveryDecision : Type 0 where
  complete drop retry suspend_reader halt_global : DeliveryDecision

abbrev pub decision_text : DeliveryDecision → String
decision_text complete = "COMPLETE"
decision_text drop = "DROP"
decision_text retry = "RETRY"
decision_text suspend_reader = "SUSPEND_READER"
decision_text halt_global = "HALT_GLOBAL"

pub data GateState : Type 0 where
  preflight_pending preflight_retry active active_warning : GateState
  suspended_token suspended_config suspended_rebind : GateState

-- The states in which the sender may take rows of the reader.
abbrev pub sendable : GateState → Bool
sendable active = true
sendable active_warning = true
sendable _ = false

-- The states in which no new row is queued.
abbrev pub suspended : GateState → Bool
suspended suspended_token = true
suspended suspended_config = true
suspended suspended_rebind = true
suspended _ = false

abbrev gate_code : GateState → ℕ
gate_code preflight_pending = 0
gate_code preflight_retry = 1
gate_code active = 2
gate_code active_warning = 3
gate_code suspended_token = 4
gate_code suspended_config = 5
gate_code suspended_rebind = 6

unfoldable pub gate_eq : GateState → GateState → Bool
gate_eq a b = gate_code a == gate_code b

pub gate_eq_iff : (a b : GateState) → (gate_eq a b ≡ true) ↔ (a ≡ b)
unfolding gate_eq
gate_eq_iff a b = (λ h. ground arith, λ h. ground arith)

pub data SenderState : Type 0 where
  running halted : SenderState

pub record GateMeta : Type 0 where
  pub event_name : String
  pub booth_name : String
  pub unit_name : String
  pub cooldown_sec : ℤ

-- `GateMeta{}`
abbrev pub no_meta : GateMeta
no_meta = record { event_name = ""; booth_name = ""; unit_name = ""; cooldown_sec = pos 0 }

-- `e.Meta == meta`, field by field.
unfoldable pub meta_eq : GateMeta → GateMeta → Bool
meta_eq a b =
    str_eq a.event_name b.event_name
    && str_eq a.booth_name b.booth_name
    && str_eq a.unit_name b.unit_name
    && eq_ℤ a.cooldown_sec b.cooldown_sec

pub meta_eq_iff : (a b : GateMeta) → (meta_eq a b ≡ true) ↔ (a ≡ b)
unfolding meta_eq
meta_eq_iff a b = (λ h. ground (arith, h, parts), λ h. ground (arith, h, parts))
  where
    parts :
        ((str_eq a.event_name b.event_name ≡ true) ↔ (a.event_name ≡ b.event_name))
        × ((str_eq a.booth_name b.booth_name ≡ true) ↔ (a.booth_name ≡ b.booth_name))
        × ((str_eq a.unit_name b.unit_name ≡ true) ↔ (a.unit_name ≡ b.unit_name))
        × ((eq_ℤ a.cooldown_sec b.cooldown_sec ≡ true) ↔ (a.cooldown_sec ≡ b.cooldown_sec))
    parts = (str_eq_iff _ _, str_eq_iff _ _, str_eq_iff _ _, eq_ℤ_iff _ _)

-- A pulse token. What is printed or marshalled of it is the same text whatever the token is.
pub record Secret : Type 0 where
  pub v : String

abbrev pub secret_text : Secret → String
secret_text s = "[REDACTED]"

abbrev pub is_zero : Secret → Bool
is_zero s = str_eq s.v ""

-- `digest` is the first twelve bytes of SHA-256 in hexadecimal digits.
unfoldable pub fingerprint : (digest : String → String) → Secret → String
fingerprint digest s = if is_zero s then "" else digest s.v
