-- ===== src/Gate/Mirror.antt =====
-- How the entry in memory and the row of `gate_state` stand to each other after `Set`.
use rfid_middleware_idro900e.Prelude.{
  ℕ, String, false, Option, none, some, str_eq, str_eq_refl, ◌≡◌, refl, arith, if◌then◌else◌,
}
use rfid_middleware_idro900e.Domain.{GateState, GateMeta}
use rfid_middleware_idro900e.Store.{Db, GateRow}
use rfid_middleware_idro900e.Store.Gates.{
  set_gate, gate_of, gate_of-upsert_gate, stored_meta, new_meta,
}
use rfid_middleware_idro900e.Gate.{
  Entry, Registry, get, entry_or_zero, changed_entry, store, persist, set,
}
use rfid_middleware_idro900e.Gate.Entries.{get_entry-put_entry}

abbrev old_entry : String → Registry → Entry
old_entry r reg = entry_or_zero (get r reg)

-- The row that `Set` leaves in the store.
abbrev set_row : String → GateState → String → ℕ → String → Option GateMeta → Db → GateRow
set_row r st why now fp m db = record {
  reader_id = r;
  state = st;
  reason = why;
  changed_at_ms = now;
  token_fingerprint = fp;
  meta = new_meta m (stored_meta (gate_of r db.gates));
}

module _ (r : String) (st : GateState) (why : String) (now : ℕ) (fp : String) (m : Option GateMeta)
    (reg : Registry) (db : Db) where
  -- The entry and the row after `Set`.
  abbrev pub Mirrors : Type 0
  Mirrors =
      let w = set (store false) r st why now fp m reg db in
      (e : Entry) × (g : GateRow) × (get r w.registry ≡ some e)
      × (gate_of r w.db.gates ≡ some g)
      × (e.state ≡ st)
      × (g.state ≡ st)
      × (e.reason ≡ g.reason)
      × (e.meta ≡ g.meta)
      × (g.token_fingerprint ≡ fp)
      × (e.fingerprint ≡ (if str_eq fp "" then (old_entry r reg).fingerprint else fp))

  -- Where the write of `Set` succeeds and the meta of the reader was the same in memory and in the
  -- store, both have the new state and reason and the same meta. The row has the fingerprint
  -- that was given, an empty one too; the entry has it only where it is not empty, and keeps its old one else.
  pub set_mirrors : (old_entry r reg).meta ≡ stored_meta (gate_of r db.gates) → Mirrors
  unfolding set get persist set_gate
  set_mirrors same = (
    changed_entry st why fp m (old_entry r reg),
    set_row r st why now fp m db,
    ground (
      arith,
      get_entry-put_entry r r (changed_entry st why fp m (old_entry r reg)) reg.entries,
      str_eq_refl r,
    ),
    ground (arith, gate_of-upsert_gate r r st why now fp m db.gates, str_eq_refl r),
    refl,
    refl,
    refl,
    same_meta m,
    refl,
    refl,
  )
    where
      same_meta :
          (m : Option GateMeta)
          → (changed_entry st why fp m (old_entry r reg)).meta ≡ (set_row r st why now fp m db).meta
      same_meta none = same
      same_meta (some n) = refl
