-- ===== src/Store/Gates.antt =====
-- The operations of store.go on `gate_state`.
use rfid_middleware_idro900e.Prelude.{
  ℕ, String, Bool, List, [], ◌∷◌, Option, none, some, str_eq, if◌then◌else◌, ◌≡◌, arith, str_eq_iff,
}
use rfid_middleware_idro900e.Domain.{GateState, GateMeta, no_meta}
use rfid_middleware_idro900e.Store.Transaction.{Result, ok, failed}
use rfid_middleware_idro900e.Store.{GateRow, Db}

-- What a conflicting insert leaves of the stored meta: all of it where none is given.
abbrev pub new_meta : Option GateMeta → GateMeta → GateMeta
new_meta none old = old
new_meta (some m) old = m

-- INSERT INTO gate_state … ON CONFLICT(reader_id) DO UPDATE. Without a meta the columns of the meta
-- have their defaults in a new row, and stay in an old one; the fingerprint is written always.
unfoldable pub upsert_gate :
    String → GateState → String → ℕ → String → Option GateMeta → List GateRow → List GateRow
upsert_gate r st why now fp m [] =
    record {
      reader_id = r;
      state = st;
      reason = why;
      changed_at_ms = now;
      token_fingerprint = fp;
      meta = new_meta m no_meta;
    }
    ∷ []
upsert_gate r st why now fp m (g ∷ rest) =
    if str_eq g.reader_id r
    then record {
      reader_id = r;
      state = st;
      reason = why;
      changed_at_ms = now;
      token_fingerprint = fp;
      meta = new_meta m g.meta;
    }
      ∷ rest
    else g ∷ upsert_gate r st why now fp m rest

-- `SetGate`
unfoldable pub set_gate :
    Bool → String → GateState → String → ℕ → String → Option GateMeta → Db → Result (Unit {0}) × Db
set_gate fails r st why now fp m db =
    if fails
    then (failed, db)
    else (ok tt, record db { gates = upsert_gate r st why now fp m db.gates })

-- `Gates` and the look-up that its callers make in the map it returns.
unfoldable pub gate_of : String → List GateRow → Option GateRow
gate_of r [] = none
gate_of r (g ∷ rest) = if str_eq g.reader_id r then some g else gate_of r rest

unfoldable pub gates : Bool → Db → Result (List GateRow)
gates fails db = if fails then failed else ok db.gates

abbrev pub stored_meta : Option GateRow → GateMeta
stored_meta none = no_meta
stored_meta (some g) = g.meta

-- A write of one reader's state is read back for that reader, and for no other.
pub gate_of-upsert_gate :
    (r j : String) (st : GateState) (why : String) (now : ℕ) (fp : String) (m : Option GateMeta)
    (gs : List GateRow)
    → gate_of j (upsert_gate r st why now fp m gs) ≡ (
        if str_eq r j
        then some (record {
          reader_id = r;
          state = st;
          reason = why;
          changed_at_ms = now;
          token_fingerprint = fp;
          meta = new_meta m (stored_meta (gate_of r gs));
        })
        else gate_of j gs)
unfolding gate_of upsert_gate
gate_of-upsert_gate r j st why now fp m [] = ground arith
gate_of-upsert_gate r j st why now fp m (g ∷ gs) = ground (
  arith,
  str_eq_iff r j,
  str_eq_iff g.reader_id r,
  str_eq_iff g.reader_id j,
  gate_of-upsert_gate r j st why now fp m gs,
)
