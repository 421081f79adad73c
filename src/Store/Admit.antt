-- ===== src/Store/Admit.antt =====
-- `Admit` on every branch: what it returns and what it writes.
use rfid_middleware_idro900e.Prelude.{
  ℕ, suc, ◌≡◌, ◌↔◌, ◌⊎◌, refl, String, Bool, true, false, List, [], ◌∷◌, ◌++◌, Option, some, arith,
  str_eq_iff, bytes_eq_iff, if◌then◌else◌, Bytes,
}
use rfid_middleware_idro900e.Store.Transaction.{ok, failed}
use rfid_middleware_idro900e.Store.{
  Seen, Db, is_of, last_accepted, upsert_seen, AdmitResult, went_backward, debounced, new_row, Call,
  admit_tx, admit,
}

pub is_of_iff :
    (r : String) (e : Bytes) (r' : String) (e' : Bytes)
    → (is_of r e r' e' ≡ true) ↔ ((r ≡ r') × (e ≡ e'))
is_of_iff r e r' e' = (
  λ h. ground (arith, h, str_eq_iff r r', bytes_eq_iff e e'),
  λ h. ground (arith, h, str_eq_iff r r', bytes_eq_iff e e'),
)

-- A write of one key's instant is read back for that key, and for no other.
pub last_accepted-upsert_seen :
    (r : String) (e : Bytes) (j : String) (f : Bytes) (ms : ℕ) (seen : List Seen)
    → last_accepted j f (upsert_seen r e ms seen)
      ≡ (if is_of r e j f then some ms else last_accepted j f seen)
unfolding last_accepted upsert_seen
last_accepted-upsert_seen r e j f ms [] = refl
last_accepted-upsert_seen r e j f ms (s ∷ rest) = ground (
  arith,
  is_of_iff r e j f,
  is_of_iff s.reader_id s.epc r e,
  is_of_iff s.reader_id s.epc j f,
  last_accepted-upsert_seen r e j f ms rest,
)

module _ (r : String) (e : Bytes) (received : ℕ) (checked_at : String) (debounce : ℕ)
    (db : Db) where
  abbrev last : Option ℕ
  last = last_accepted r e db.seen

  abbrev pub dropped_result : AdmitResult
  dropped_result = record {
    accepted = false;
    item_id = 0;
    clock_backward = went_backward last received;
  }

  abbrev pub accepted_result : AdmitResult
  accepted_result = record {
    accepted = true;
    item_id = db.next_id;
    clock_backward = went_backward last received;
  }

  -- The tables after an accepted read.
  abbrev pub after_admit : Db
  after_admit = record db {
    queue = db.queue ++ new_row db.next_id r e received checked_at ∷ [];
    next_id = suc db.next_id;
    seen = upsert_seen r e received db.seen;
  }

  -- `Admit` returns an error and has changed nothing, or drops a debounced read and has changed
  -- nothing, or accepts one that is not debounced: then one row is at the end of the queue, under
  -- a new identifier, and the instant is the key's last accepted one.
  pub admit_outcome :
      (fails : Call → Bool)
      → (admit fails r e received checked_at debounce db ≡ (failed, db))
        ⊎ (debounced last received debounce ≡ true)
          × (admit fails r e received checked_at debounce db ≡ (ok dropped_result, db))
        ⊎ (debounced last received debounce ≡ false)
          × (admit fails r e received checked_at debounce db ≡ (ok accepted_result, after_admit))
  unfolding admit admit_tx
  admit_outcome fails = ground arith

  -- Where no call of the driver fails, `Admit` returns no error.
  pub admit_decides : admit (λ _. false) r e received checked_at debounce db ≡ (
      if debounced last received debounce
      then (ok dropped_result, db)
      else (ok accepted_result, after_admit))
  unfolding admit admit_tx
  admit_decides = ground arith
