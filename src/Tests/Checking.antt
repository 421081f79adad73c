-- ===== src/Tests/Checking.antt =====
-- Runs of internal/sender/preflight.go and internal/sender/metarefresh.go.
use rfid_middleware_idro900e.Prelude.{ℕ, true, false, none, some, String, [], ◌∷◌, ◌≡◌, refl, inl}
use rfid_middleware_idro900e.Prelude.Int.{pos}
use rfid_middleware_idro900e.Domain.{Secret, GateMeta, fingerprint, active, no_meta}
use rfid_middleware_idro900e.Store.{empty}
use rfid_middleware_idro900e.Gate.{new_registry, store, get}
use rfid_middleware_idro900e.Gate.Entries.{can_send}
use rfid_middleware_idro900e.Congkong.Json.{end}
use rfid_middleware_idro900e.Congkong.Ignores.{preflight_meta_reads, meta_body}
use rfid_middleware_idro900e.Congkong.Decode.{preflight_meta}
use rfid_middleware_idro900e.Congkong.Classify.{HttpResult}
use rfid_middleware_idro900e.Sender.{World}
use rfid_middleware_idro900e.Sender.Preflight.{attempt}
use rfid_middleware_idro900e.Sender.Preflight.Outcome.{Outcome, attempt_sendable}
use rfid_middleware_idro900e.Sender.Preflight.Rebind.{retry_disarms_rebind}
use rfid_middleware_idro900e.Sender.Refresh.{on_answer}
use rfid_middleware_idro900e.Sender.Refresh.Keeps.{Untouched, on_answer_keeps}

abbrev meta : GateMeta
meta = record { event_name = "E"; booth_name = "B2"; unit_name = "U"; cooldown_sec = pos 60 }

abbrev answer : ℕ → HttpResult
answer status = record {
  status = status;
  body = meta_body meta end;
  body_err = false;
  transport_err = false;
  date_skew = none;
}

abbrev lost : HttpResult
lost = record (answer 0) { transport_err = true; body = none }

-- The reader was active at booth B1, under another token.
abbrev world : World
world = record {
  reg = record new_registry {
    entries =
        (
          "r1",
          record {
            state = active;
            reason = "";
            fingerprint = "old";
            meta = record no_meta { booth_name = "B1" };
          },
        )
        ∷ [];
  };
  db = empty;
  log = [];
  posts = [];
  contacts = [];
  succeeded = [];
}

abbrev token : Secret
token = record { v = "new" }

abbrev digest : String → String
digest v = v

reads_meta : preflight_meta (meta_body meta end) ≡ some meta
reads_meta = preflight_meta_reads meta end tt (inl (λ h. cc h))

attempt_sendable_example : Outcome digest (store false) "r1" token 7 (answer 200) world
attempt_sendable_example = attempt_sendable digest (store false) "r1" token 7 (answer 200) world

retry_disarms_rebind_example :
    can_send (
      get "r1"
        (attempt digest
          (store false)
          "r1"
          token
          9
          (answer 200)
          (attempt digest (store false) "r1" token 7 lost world).0).0.reg)
    ≡ true
unfolding fingerprint
retry_disarms_rebind_example =
    retry_disarms_rebind digest (store false) "r1" token 7 9 lost (answer 200) world meta
      (λ h. cc h) (λ h. cc h.0) (refl, refl, refl) refl reads_meta

on_answer_keeps_example :
    Untouched "r1" world.reg (on_answer (store false) "r1" 7 (answer 200) world).reg
on_answer_keeps_example = on_answer_keeps (store false) "r1" 7 (answer 200) world "r1"
