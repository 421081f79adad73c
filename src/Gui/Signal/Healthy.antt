-- ===== src/Gui/Signal/Healthy.antt =====
-- What a green lamp stands for, without the rules of `evalSignal`.
use rfid_middleware_idro900e.Prelude.{
  ℕ, ◌+◌, ◌*◌, ◌/◌, ◌≤◌, String, true, Option, none, some, ◌≡◌, ◌≢◌, ◌⊎◌, All,
}
use rfid_middleware_idro900e.Prelude.Int.{pos, negsuc, ◌≤ℤ◌}
use rfid_middleware_idro900e.App.Status.{Status, NtpInfo, ReaderStatus}
use rfid_middleware_idro900e.Gui.Signal.{minutes}

-- A reader that is connected and in a state that asks for nothing.
pub record IsCalm (r : ReaderStatus) : Type 0 where
  pub connected : r.conn_state ≢ "DISCONNECTED"
  pub not_revoked : r.gate_state ≢ "SUSPENDED_TOKEN"
  pub not_broken : r.gate_state ≢ "SUSPENDED_CONFIG"
  pub not_rebound : r.gate_state ≢ "SUSPENDED_REBIND"
  pub not_retrying : r.gate_state ≢ "PREFLIGHT_RETRY"
  pub not_warning : r.gate_state ≢ "ACTIVE_WARNING"

-- The clock was compared with the server's, and is less than four minutes off.
abbrev pub IsOnTime : Option NtpInfo → Type 0
IsOnTime none = ⊥
IsOnTime (some n) = (n.checked ≡ true) × (negsuc 238 ≤ℤ n.skew_sec) × (n.skew_sec ≤ℤ pos 239)

-- The instant, if there is one, is not longer ago than `d`.
abbrev pub Within : ℕ → ℕ → Option ℕ → Type 0
Within d now none = Unit
Within d now (some t) = now ≤ t + d

abbrev pub Lasts : (String → Option ℕ) → ℕ → ℕ → String → Type 0
Lasts parse now hours oldest =
    ((oldest ≡ "") ⊎ (hours ≡ 0)) ⊎ Within (minutes (60 * hours) * 9 / 10) now (parse oldest)

abbrev pub Flows : (String → Option ℕ) → ℕ → Status → Type 0
Flows parse now s =
    ((s.queue_depth ≡ 0) ⊎ (s.queue_non_empty_since ≡ ""))
    ⊎ Within (minutes 5) now (parse s.queue_non_empty_since)

pub record IsHealthy (parse : String → Option ℕ) (s : Status) (now hours : ℕ) : Type 0 where
  pub sends : s.sender_state ≡ "RUNNING"
  pub readers : All IsCalm s.readers
  pub clock : IsOnTime s.ntp
  pub oldest : Lasts parse now hours s.oldest_checked_at
  pub queue : Flows parse now s
