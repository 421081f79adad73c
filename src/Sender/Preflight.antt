-- ===== src/Sender/Preflight.antt =====
-- internal/sender/preflight.go: the check of a reader's token before its rows are sent.
pub mod Outcome
pub mod Rebind
use rfid_middleware_idro900e.Prelude.{
  ℕ, zero, suc, ◌+◌, ◌*◌, String, Bool, true, false, not, ◌&&◌, ◌||◌, List, [], ◌∷◌, ◌++◌, Option,
  none, some, ◌==◌, leb, str_eq, if◌then◌else◌,
}
use rfid_middleware_idro900e.Prelude.Int.{ℤ, pos, pos_part, neg_part, ltb_ℤ}
use rfid_middleware_idro900e.Domain.{
  millis, Secret, fingerprint, GateState, GateMeta, preflight_retry, active, active_warning,
  suspended_token, suspended_config, suspended_rebind,
}
use rfid_middleware_idro900e.Store.Transaction.{Result}
use rfid_middleware_idro900e.Gate.{Entry, Registry, Persister, Written, get, set}
use rfid_middleware_idro900e.Admission.{Level, Log, info, warn, error}
use rfid_middleware_idro900e.Congkong.Decode.{preflight_meta}
use rfid_middleware_idro900e.Congkong.Classify.{HttpResult}
use rfid_middleware_idro900e.Sender.{World, say, seconds, backoff_delay}

-- The entry that the log gets where the server's clock and the machine's differ by a minute or more.
abbrev skew_log : Option ℤ → Log
skew_log none = []
skew_log (some z) =
    let skew = pos_part z + neg_part z in
    if leb (seconds 240) skew
    then (error, "CLOCK_SKEW") ∷ []
    else if leb (seconds 60) skew
    then (warn, "CLOCK_SKEW") ∷ []
    else []

-- What an attempt settles on: the gate's state, its reason, the meta that goes with it, the log entry, and whether
-- this is final.
pub record Verdict : Type 0 where
  pub state : GateState
  pub reason : String
  pub meta : Option GateMeta
  pub level : Level
  pub event : String
  pub final : Bool

-- Whether the token has changed, and its gate with it, by the booth's name.
unfoldable pub rebinds : Option Entry → String → GateMeta → Bool
rebinds none fp m = false
rebinds (some prev) fp m =
    not (str_eq prev.fingerprint "")
    && not (str_eq prev.fingerprint fp)
    && not (str_eq prev.meta.booth_name "")
    && not (str_eq prev.meta.booth_name m.booth_name)

unfoldable pub of_meta : Option Entry → String → Option GateMeta → Verdict
of_meta prev fp none = record {
  state = suspended_config;
  reason = "preflight 200 body 계약 위반";
  meta = none;
  level = error;
  event = "PREFLIGHT_INVALID_BODY";
  final = true;
}
of_meta prev fp (some m) =
    if rebinds prev fp m
    then record {
      state = suspended_rebind;
      reason = "토큰 변경 + gate 불일치 — queue resume 필요";
      meta = some m;
      level = error;
      event = "GATE_SUSPENDED_REBIND";
      final = true;
    }
    else if ltb_ℤ (pos 0) m.cooldown_sec
    then record {
      state = active;
      reason = "";
      meta = some m;
      level = info;
      event = "PREFLIGHT_OK";
      final = true;
    }
    else record {
      state = active_warning;
      reason = "cooldownSec=0 — 재시도 멱등성 미보장";
      meta = some m;
      level = error;
      event = "PREFLIGHT_COOLDOWN_ZERO";
      final = true;
    }

-- The switch of `attempt`.
unfoldable pub verdict : Option Entry → String → HttpResult → Verdict
verdict prev fp res =
    if res.transport_err || res.body_err || leb 500 res.status
    then record {
      state = preflight_retry;
      reason = "네트워크/서버 오류";
      meta = none;
      level = warn;
      event = "PREFLIGHT_RETRY";
      final = false;
    }
    else if res.status == 200
    then of_meta prev fp (preflight_meta res.body)
    else if res.status == 404
    then record {
      state = suspended_token;
      reason = "preflight 404 — 토큰 회수/무효";
      meta = none;
      level = error;
      event = "TOKEN_SUSPENDED";
      final = true;
    }
    else record {
      state = suspended_config;
      reason = "preflight 예상 밖 응답";
      meta = none;
      level = error;
      event = "PREFLIGHT_UNEXPECTED";
      final = true;
    }

-- `attempt`, with the server's answer: the world, and whether a final state is reached. `digest` is that of `Fingerprint`.
unfoldable pub attempt :
    (digest : String → String) → Persister → String → Secret → ℕ → HttpResult → World → World × Bool
attempt digest p r token now res w =
    let fp = fingerprint digest token in
    let v = verdict (get r w.reg) fp res in
    let g = set p r v.state v.reason (millis now) fp v.meta w.reg w.db in
    (
      record w {
        reg = g.registry;
        db = g.db;
        log = (w.log ++ skew_log res.date_skew) ++ (v.level, v.event) ∷ [];
      },
      v.final,
    )

-- `Run`, over the answers that come and the instants they come at: the world, and the delays between the attempts.
-- The argument before the world counts the attempts that were made.
unfoldable pub run_preflight :
    (digest : String → String)
    → Persister
    → String
    → Secret
    → List (ℕ × HttpResult)
    → ℕ
    → World
    → World × List ℕ
unfolding attempt
run_preflight digest p r token [] n w = (w, [])
run_preflight digest p r token ((now, res) ∷ rest) n w =
    let (w', final) = attempt digest p r token now res w in
    let (v, delays) = run_preflight digest p r token rest (suc n) w' in
    if final then (w', []) else (v, backoff_delay (suc n) ∷ delays)
