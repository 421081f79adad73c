-- ===== src/Tests/Storing.antt =====
-- Runs of the store and of the admission: internal/store/sqlite/store.go, internal/admission/admission.go.
use rfid_middleware_idro900e.Prelude.{Bool, ◌⊎◌, true, false, [], ◌∷◌, ◌≡◌, Bytes, arith}
use rfid_middleware_idro900e.Domain.{TagRead, GateState, no_meta, suspended_token}
use rfid_middleware_idro900e.Gate.{Registry, init, new_registry}
use rfid_middleware_idro900e.Admission.{Service}
use rfid_middleware_idro900e.Admission.Keeps.{Cases, handle_cases}
use rfid_middleware_idro900e.Store.{Db, empty, admit, debounced, last_accepted, Call}
use rfid_middleware_idro900e.Store.Transaction.{ok, failed}
use rfid_middleware_idro900e.Store.Admit.{
  admit_outcome, after_admit, dropped_result, accepted_result,
}
use rfid_middleware_idro900e.Store.Invariant.{IsWf}
use rfid_middleware_idro900e.Store.Invariant.Reach.{Reach, start, next, admits, Reach-IsWf}

abbrev never : Call → Bool
never _ = false

abbrev epc : Bytes
epc = b'e' ∷ b'2' ∷ []

-- One read, at the fifth second, under a debounce interval of one second.
abbrev pub one_read : Db
one_read = (admit never "r1" epc 5_000 "05" 1_000 empty).1

pub reached : Reach 1_000 one_read
reached = next start (admits never "r1" epc 5_000 "05")

Reach-IsWf_example : IsWf 1_000 one_read
Reach-IsWf_example = Reach-IsWf 1_000 (omega arith) reached

admit_outcome_example :
    (admit never "r1" epc 5_500 "05.5" 1_000 one_read ≡ (failed, one_read))
    ⊎ (debounced (last_accepted "r1" epc one_read.seen) 5_500 1_000 ≡ true)
      × (admit never "r1" epc 5_500 "05.5" 1_000 one_read
          ≡ (ok (dropped_result "r1" epc 5_500 "05.5" 1_000 one_read), one_read))
    ⊎ (debounced (last_accepted "r1" epc one_read.seen) 5_500 1_000 ≡ false)
      × (admit never "r1" epc 5_500 "05.5" 1_000 one_read ≡ (
        ok (accepted_result "r1" epc 5_500 "05.5" 1_000 one_read),
        after_admit "r1" epc 5_500 "05.5" 1_000 one_read,
      ))
admit_outcome_example = admit_outcome "r1" epc 5_500 "05.5" 1_000 one_read never

abbrev running_with : GateState → Registry
running_with st =
    init "r1" (record { state = st; reason = ""; fingerprint = "f"; meta = no_meta }) new_registry

abbrev service : Service
service = record { debounce = 1_000_000_000; has_wake = true; has_on_tag = false }

abbrev read : TagRead
read = record { reader_id = "r1"; epc = epc; received_at = 7_000_000_000; raw_line = [] }

handle_cases_example : Cases (λ _. "07") never service (running_with suspended_token) read one_read
handle_cases_example =
    handle_cases (λ _. "07") never service (running_with suspended_token) read one_read
