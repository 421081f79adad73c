-- ===== src/Admission/Keeps.antt =====
-- `Handle` on a suspended reader, and when it adds a row.
use rfid_middleware_idro900e.Prelude.{
  ℕ, String, Bool, true, false, [], ◌∷◌, ◌≡◌, ◌⊎◌, arith, Bool-cases, inl, inr,
}
use rfid_middleware_idro900e.Domain.{TagRead, millis}
use rfid_middleware_idro900e.Store.{Db, Call, debounced, last_accepted}
use rfid_middleware_idro900e.Store.Admit.{admit_outcome, after_admit}
use rfid_middleware_idro900e.Store.Invariant.Reach.{Reach, next, admits}
use rfid_middleware_idro900e.Gate.{Registry, is_suspended}
use rfid_middleware_idro900e.Admission.{Service, handle, warn, error}

module _ (format : ℕ → String) (fails : Call → Bool) (s : Service) (reg : Registry) (read : TagRead)
    (db : Db) where
  abbrev after : Db
  after =
      after_admit read.reader_id read.epc (millis read.received_at) (format read.received_at)
        (millis s.debounce) db

  -- Whether the read falls in the debounce window of its reader and EPC.
  abbrev again : Bool
  again =
      debounced (last_accepted read.reader_id read.epc db.seen) (millis read.received_at)
        (millis s.debounce)

  -- The outcomes of `Handle`.
  abbrev pub Cases : Type 0
  Cases =
      ((is_suspended read.reader_id reg ≡ true)
            × ((handle format fails s reg read db).log ≡ (warn, "SCAN_DROPPED_SUSPENDED") ∷ [])
          ⊎ (is_suspended read.reader_id reg ≡ false)
            × ((handle format fails s reg read db).log ≡ (error, "ENQUEUE_FAILED") ∷ [])
          ⊎ (is_suspended read.reader_id reg ≡ false) × (again ≡ true))
        × ((handle format fails s reg read db).db ≡ db)
        × ((handle format fails s reg read db).woken ≡ false)
      ⊎ (is_suspended read.reader_id reg ≡ false)
        × (again ≡ false)
        × ((handle format fails s reg read db).db ≡ after)
        × ((handle format fails s reg read db).woken ≡ s.has_wake)

  -- A read is queued, and the sender woken, together or not at all. A read of a suspended reader, one in
  -- the debounce window and one whose transaction fails leave the tables as they are and wake no one. Any
  -- other adds one row at the end of the queue, whose `checkedAt` is the formatted instant of
  -- the read, and wakes the sender, if the callback is set.
  pub handle_cases : Cases
  unfolding handle
  handle_cases = ground (
    arith,
    admit_outcome read.reader_id read.epc (millis read.received_at) (format read.received_at)
        (millis s.debounce) db fails,
  )

  -- From tables that the store's operations reach, `Handle` goes to such tables.
  pub handle-Reach :
      Reach (millis s.debounce) db
      → Reach (millis s.debounce) (handle format fails s reg read db).db
  unfolding handle
  handle-Reach w = elim (Bool-cases (is_suspended read.reader_id reg)) [
    | inl t ↦ rw t w
    | inr t ↦ rw t (
        next w (
          admits fails read.reader_id read.epc (millis read.received_at) (format read.received_at)))
  ]
