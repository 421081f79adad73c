-- ===== src/App/Restore/Silent.antt =====
-- Which readers may send once the gates are restored: internal/app/app.go.
use mathlib.Core.Path.{subst}
use rfid_middleware_idro900e.Prelude.{
  ℕ, String, false, List, [], ◌∷◌, Option, none, some, ◌≡◌, refl, inl, inr, Bool-cases, arith,
}
use rfid_middleware_idro900e.Domain.{GateState, sendable}
use rfid_middleware_idro900e.Store.{Db, GateRow}
use rfid_middleware_idro900e.Store.Transaction.{ok}
use rfid_middleware_idro900e.Store.Gates.{gates, gate_of}
use rfid_middleware_idro900e.Gate.{Entry, Entries, put_entry, sendable_of, sendable_readers, init}
use rfid_middleware_idro900e.Config.{Reader}
use rfid_middleware_idro900e.App.Restore.{
  Fails, Started, kept_state, is_replaced, restore_row, restore_all, start, restore,
}

sendable_of-put_entry :
    (r : String) (e : Entry) (es : Entries)
    → sendable e.state ≡ false
    → sendable_of es ≡ []
    → sendable_of (put_entry r e es) ≡ []
unfolding sendable_of put_entry
sendable_of-put_entry r e [] s h = ground (arith, s)
sendable_of-put_entry r e ((k, g) ∷ es) s h = ground (arith, s, h, sendable_of-put_entry r e es s)

kept_unsendable : (s : GateState) → sendable (kept_state s) ≡ false
kept_unsendable s = ground arith

row_silent :
    (f : Fails) (digest : String → String) (now : ℕ) (r : Reader) (o : Option GateRow)
    (st : Started)
    → sendable_readers st.registry ≡ []
    → sendable_readers (restore_row f digest now r o st).registry ≡ []
unfolding restore_row sendable_readers init
row_silent f digest now r none st h = sendable_of-put_entry r.id _ _ refl h
row_silent f digest now r (some row) st h = elim (Bool-cases (is_replaced f digest r row st.db)) [
  | inl t ↦ rw t (sendable_of-put_entry r.id _ _ refl h)
  | inr t ↦ rw t (sendable_of-put_entry r.id _ _ (kept_unsendable row.state) h)
]

all_silent :
    (f : Fails) (digest : String → String) (now : ℕ) (rows : List GateRow) (rs : List Reader)
    (st : Started)
    → sendable_readers st.registry ≡ []
    → sendable_readers (restore_all f digest now rows rs st).registry ≡ []
unfolding restore_all
all_silent f digest now rows [] st h = h
all_silent f digest now rows (r ∷ rs) st h =
    all_silent f digest now rows rs _ (row_silent f digest now r (gate_of r.id rows) st h)

-- What a restoration that succeeds has done.
pub restore-eq-ok :
    (f : Fails) (digest : String → String) (now : ℕ) (rs : List Reader) (db : Db) (st : Started)
    → restore f digest now rs db ≡ ok st
    → restore_all f digest now db.gates rs (start db) ≡ st
unfolding restore gates
restore-eq-ok f digest now rs db st h = ground (arith, h)

-- Whatever is stored and whichever calls fail: after the gates are restored no reader may send, until a preflight has confirmed it.
pub restore_silent :
    (f : Fails) (digest : String → String) (now : ℕ) (rs : List Reader) (db : Db) (st : Started)
    → restore f digest now rs db ≡ ok st
    → sendable_readers st.registry ≡ []
unfolding sendable_readers sendable_of
restore_silent f digest now rs db st h =
    subst (λ (x : Started). sendable_readers x.registry ≡ [])
      (restore-eq-ok f digest now rs db st h) (all_silent f digest now db.gates rs (start db) refl)
