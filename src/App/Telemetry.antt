-- ===== src/App/Telemetry.antt =====
-- internal/app/telemetry.go: what the callbacks of the parts report, kept for the status file. The mutex makes each method one
-- function. The zero instant, which Go writes for "never", is `none`. `readers` is a Go map; its keys are made once, by
-- `newTelemetry`.
pub mod Server
use rfid_middleware_idro900e.Prelude.{
  ℕ, ◌+◌, String, Bool, true, false, not, ◌&&◌, List, [], ◌∷◌, map, Option, none, some, ltb, ◌==◌,
  str_eq, if◌then◌else◌,
}
use rfid_middleware_idro900e.Prelude.Int.{ℤ, pos}

pub record ReaderTele : Type 0 where
  pub last_tag_at : Option ℕ
  pub last_success_at : Option ℕ
  pub connected : Bool
  pub conn_since : ℕ

pub record Telemetry : Type 0 where
  pub readers : List (String × ReaderTele)
  pub success_since_start : ℕ
  pub queue_non_empty_since : Option ℕ
  pub ntp_checked : Bool
  pub skew_sec : ℤ
  pub skew_at : Option ℕ
  pub server_ok_at : Option ℕ
  pub server_fail_at : Option ℕ
  pub server_seen : Bool

-- `newTelemetry`
abbrev pub new_telemetry : List String → ℕ → Telemetry
new_telemetry ids now = record {
  readers =
      map
        (λ id. (
          id,
          record {
            last_tag_at = none;
            last_success_at = none;
            connected = false;
            conn_since = now;
          },
        ))
        ids;
  success_since_start = 0;
  queue_non_empty_since = none;
  ntp_checked = false;
  skew_sec = pos 0;
  skew_at = none;
  server_ok_at = none;
  server_fail_at = none;
  server_seen = false;
}

-- `if r, ok := t.readers[id]; ok { … }`
unfoldable pub on_reader :
    String → (ReaderTele → ReaderTele) → List (String × ReaderTele) → List (String × ReaderTele)
on_reader id f [] = []
on_reader id f ((k, r) ∷ rest) =
    if str_eq k id then (k, f r) ∷ rest else (k, r) ∷ on_reader id f rest

unfoldable pub tag_seen : String → ℕ → Telemetry → Telemetry
unfolding on_reader
tag_seen id now t = record t {
  readers = on_reader id (λ r. record r { last_tag_at = some now }) t.readers;
}

unfoldable pub success : String → ℕ → Telemetry → Telemetry
unfolding on_reader
success id now t = record t {
  readers = on_reader id (λ r. record r { last_success_at = some now }) t.readers;
  success_since_start = t.success_since_start + 1;
}

abbrev same : Bool → Bool → Bool
same true b = b
same false b = not b

abbrev set_conn : Bool → ℕ → ReaderTele → ReaderTele
set_conn up now r = if same r.connected up then r else record r { connected = up; conn_since = now }

unfoldable pub conn : String → Bool → ℕ → Telemetry → Telemetry
unfolding on_reader
conn id up now t = record t { readers = on_reader id (set_conn up now) t.readers }

unfoldable pub set_skew : ℤ → ℕ → Telemetry → Telemetry
set_skew sec now t = record t { ntp_checked = true; skew_sec = sec; skew_at = some now }

unfoldable pub server_contact : Bool → ℕ → Telemetry → Telemetry
server_contact true now t = record t { server_seen = true; server_ok_at = some now }
server_contact false now t = record t { server_seen = true; server_fail_at = some now }

-- `time.Time.Before`, with the zero instant before all others.
abbrev pub before : Option ℕ → Option ℕ → Bool
before a none = false
before none (some b) = true
before (some a) (some b) = ltb a b

abbrev pub is_some {ℓ} : {A : Type ℓ} → Option A → Bool
is_some none = false
is_some (some a) = true

-- `server`: whether it was contacted, whether it is online, and when it last answered.
unfoldable pub server : Telemetry → Bool × Bool × Option ℕ
server t =
    if t.server_seen
    then (
      true,
      not (before t.server_ok_at t.server_fail_at) && is_some t.server_ok_at,
      t.server_ok_at,
    )
    else (false, false, none)

abbrev since_or : Option ℕ → ℕ → Option ℕ
since_or none now = some now
since_or (some t) now = some t

-- `queueDepthObserved`; what it returns is the new field.
unfoldable pub queue_depth_observed : ℕ → ℕ → Telemetry → Telemetry
queue_depth_observed depth now t = record t {
  queue_non_empty_since = if depth == 0 then none else since_or t.queue_non_empty_since now;
}
