-- ===== src/App/Restore/Keeps.antt =====
-- Suspensions over a restart: internal/app/app.go.
use mathlib.Core.Path.{subst}
use mathlib.Core.List.Memᴰ.{not-nil}
use rfid_middleware_idro900e.Prelude.{
  ℕ, String, Bool, true, false, List, [], ◌∷◌, map, Option, none, some, str_eq_iff, str_eq_refl,
  ◌≡◌, ◌≢◌, ◌⊎◌, refl, sym, ap, ◌∙◌, inl, inr, Bool-cases, arith, Memᴰ, All, count,
}
use rfid_middleware_idro900e.Domain.{
  GateState, suspended, suspended_token, preflight_pending, gate_eq_iff, fingerprint, millis,
}
use rfid_middleware_idro900e.Store.{Db, Row, GateRow}
use rfid_middleware_idro900e.Store.Transaction.{ok}
use rfid_middleware_idro900e.Store.Queue.{pending_count, of_reader}
use rfid_middleware_idro900e.Store.Gates.{gate_of, set_gate, gate_of-upsert_gate}
use rfid_middleware_idro900e.Gate.{Entry, Entries, get_entry, get, put_entry, init}
use rfid_middleware_idro900e.Gate.Entries.{get_entry-put_entry}
use rfid_middleware_idro900e.Config.{Reader}
use rfid_middleware_idro900e.Config.Valid.{Distinct}
use rfid_middleware_idro900e.App.Restore.{
  Fails, Started, is_replaced, restore_row, restore_all, start, restore, row_entry,
}
use rfid_middleware_idro900e.App.Restore.Silent.{restore-eq-ok}

put_other :
    (r j : String) (e : Entry) (es : Entries)
    → r ≢ j
    → get_entry j (put_entry r e es) ≡ get_entry j es
put_other r j e es ne = ground (arith, get_entry-put_entry r j e es, str_eq_iff r j, ne)

put_own : (r : String) (e : Entry) (es : Entries) → get_entry r (put_entry r e es) ≡ some e
put_own r e es = ground (arith, get_entry-put_entry r r e es, str_eq_refl r)

set_gate_other :
    (fails : Bool) (r j : String) (s : GateState) (why : String) (ms : ℕ) (fp : String) (db : Db)
    → r ≢ j
    → (gate_of j (set_gate fails r s why ms fp none db).1.gates ≡ gate_of j db.gates)
      × ((set_gate fails r s why ms fp none db).1.queue ≡ db.queue)
unfolding set_gate
set_gate_other true r j s why ms fp db ne = (refl, refl)
set_gate_other false r j s why ms fp db ne =
    (ground (arith, gate_of-upsert_gate r j s why ms fp none db.gates, str_eq_iff r j, ne), refl)

set_gate-queue :
    (fails : Bool) (r : String) (s : GateState) (why : String) (ms : ℕ) (fp : String) (db : Db)
    → (set_gate fails r s why ms fp none db).1.queue ≡ db.queue
unfolding set_gate
set_gate-queue true r s why ms fp db = refl
set_gate-queue false r s why ms fp db = refl

module _ (f : Fails) (digest : String → String) (now : ℕ) where
  -- What a part of the loop leaves alone: the entry and the row of `j`, and all of the queue.
  abbrev Leaves : String → Started → Started → Type 0
  Leaves j st st' =
      (get j st'.registry ≡ get j st.registry)
      × (gate_of j st'.db.gates ≡ gate_of j st.db.gates)
      × (st'.db.queue ≡ st.db.queue)

  row-Leaves :
      (r : Reader) (o : Option GateRow) (j : String) (st : Started)
      → r.id ≢ j
      → Leaves j st (restore_row f digest now r o st)
  unfolding restore_row get init
  row-Leaves r none j st ne = (put_other r.id j _ _ ne, refl, refl)
  row-Leaves r (some row) j st ne = elim (Bool-cases (is_replaced f digest r row st.db)) [
    | inl t ↦
        let (a, b) =
          set_gate_other (f.set r.id) r.id j preflight_pending "operator changed token" (millis now)
            (fingerprint digest r.token) st.db ne in
        rw t (put_other r.id j _ _ ne, a, b)
    | inr t ↦ rw t (put_other r.id j _ _ ne, refl, refl)
  ]

  loop-Leaves :
      (rows : List GateRow) (rs : List Reader) (j : String) (st : Started)
      → All (λ y. j ≢ y) (map (λ (r : Reader). r.id) rs)
      → Leaves j st (restore_all f digest now rows rs st)
  unfolding restore_all
  loop-Leaves rows [] j st h = (refl, refl, refl)
  loop-Leaves rows (r ∷ rs) j st h =
      let st' = restore_row f digest now r (gate_of r.id rows) st in
      let (a, b, c) = row-Leaves r (gate_of r.id rows) j st (λ e. h.0 (sym e)) in
      let (a', b', c') = loop-Leaves rows rs j st' h.1 in (a' ∙ a, b' ∙ b, c' ∙ c)

  -- What becomes of a suspended reader: it stays so, or its revoked token was replaced while none of its rows waited.
  abbrev pub Suspension : Reader → GateRow → Db → Started → Type 0
  Suspension r row db st =
      (get r.id st.registry ≡ some (row_entry row.state row))
        × (gate_of r.id st.db.gates ≡ some row)
      ⊎ ((row.state ≡ suspended_token)
          × (fingerprint digest r.token ≢ row.token_fingerprint)
          × (count (of_reader r.id) db.queue ≡ 0)
          × (get r.id st.registry ≡ some (row_entry preflight_pending row)))

  replaced_facts :
      (r : Reader) (row : GateRow) (db : Db)
      → suspended row.state ≡ true
      → is_replaced f digest r row db ≡ true
      → (row.state ≡ suspended_token)
        × (fingerprint digest r.token ≢ row.token_fingerprint)
        × (count (of_reader r.id) db.queue ≡ 0)
  unfolding is_replaced pending_count
  replaced_facts r row db s t = (
    ground (arith, s, t, gate_eq_iff row.state suspended_token),
    (λ e. ground (arith, s, t, e, str_eq_iff (fingerprint digest r.token) row.token_fingerprint)),
    ground (arith, s, t),
  )

  round-Suspension :
      (r : Reader) (row : GateRow) (db : Db) (st : Started)
      → suspended row.state ≡ true
      → gate_of r.id st.db.gates ≡ some row
      → st.db.queue ≡ db.queue
      → Suspension r row db (restore_row f digest now r (some row) st)
  unfolding restore_row get init
  round-Suspension r row db st s g q = elim (Bool-cases (is_replaced f digest r row st.db)) [
    | inl t ↦
        let (a, b, c) = replaced_facts r row st.db s t in
        rw t (
          inr (a, b, ap (λ (x : List Row). count (of_reader r.id) x) (sym q) ∙ c, put_own r.id _ _))
    | inr t ↦ rw (t, s) (inl (put_own r.id _ _, g))
  ]

  Suspension-after :
      (r : Reader) (row : GateRow) (db : Db) (st st' : Started)
      → Leaves r.id st st'
      → Suspension r row db st
      → Suspension r row db st'
  Suspension-after r row db st st' (a, b, c) (inl (g, h)) = inl (a ∙ g, b ∙ h)
  Suspension-after r row db st st' (a, b, c) (inr (s, n, k, g)) = inr (s, n, k, a ∙ g)

  row_queue :
      (r : Reader) (o : Option GateRow) (st : Started)
      → (restore_row f digest now r o st).db.queue ≡ st.db.queue
  unfolding restore_row
  row_queue r none st = refl
  row_queue r (some row) st = elim (Bool-cases (is_replaced f digest r row st.db)) [
    | inl t ↦ rw t (
        set_gate-queue (f.set r.id) r.id preflight_pending "operator changed token" (millis now)
          (fingerprint digest r.token) st.db)
    | inr t ↦ rw t refl
  ]

  own_round :
      (rows : List GateRow) (r : Reader) (row : GateRow) (db : Db) (rs : List Reader) (st : Started)
      → suspended row.state ≡ true
      → gate_of r.id rows ≡ some row
      → All (λ y. r.id ≢ y) (map (λ (x : Reader). x.id) rs)
      → gate_of r.id st.db.gates ≡ some row
      → st.db.queue ≡ db.queue
      → Suspension r row db (restore_all f digest now rows (r ∷ rs) st)
        × ((restore_all f digest now rows (r ∷ rs) st).db.queue ≡ db.queue)
  unfolding restore_all
  own_round rows r row db rs st s o n g q =
      let st' = restore_row f digest now r (some row) st in
      let after = loop-Leaves rows rs r.id st' n in
      subst
        (λ (y : Option GateRow).
          Suspension r row db (restore_all f digest now rows rs (restore_row f digest now r y st))
          × ((restore_all f digest now rows rs (restore_row f digest now r y st)).db.queue
              ≡ db.queue))
        (sym o)
        (
          Suspension-after r row db st' (restore_all f digest now rows rs st') after
              (round-Suspension r row db st s g q),
          after.2 ∙ row_queue r (some row) st ∙ q,
        )

  ids_ne :
      (r x : Reader) (rs : List Reader)
      → All (λ y. x.id ≢ y) (map (λ (z : Reader). z.id) rs)
      → Memᴰ r rs
      → x.id ≢ r.id
  ids_ne r x [] h m = absurd (not-nil m)
  ids_ne r x (y ∷ rs) h (Memᴰ.head e) = λ k. h.0 (k ∙ ap (λ (z : Reader). z.id) e)
  ids_ne r x (y ∷ rs) h (Memᴰ.tail m) = ids_ne r x rs h.1 m

  loop-Suspension :
      (rows : List GateRow) (r : Reader) (row : GateRow) (db : Db) (rs : List Reader) (st : Started)
      → suspended row.state ≡ true
      → gate_of r.id rows ≡ some row
      → Memᴰ r rs
      → Distinct (map (λ (x : Reader). x.id) rs)
      → gate_of r.id st.db.gates ≡ some row
      → st.db.queue ≡ db.queue
      → Suspension r row db (restore_all f digest now rows rs st)
        × ((restore_all f digest now rows rs st).db.queue ≡ db.queue)
  unfolding restore_all
  loop-Suspension rows r row db [] st s o m d g q = absurd (not-nil m)
  loop-Suspension rows r row db (x ∷ rs) st s o (Memᴰ.head e) d g q =
      subst
        (λ (y : Reader).
          Suspension r row db (restore_all f digest now rows (y ∷ rs) st)
          × ((restore_all f digest now rows (y ∷ rs) st).db.queue ≡ db.queue))
        e
        (own_round rows r row db rs st s o
          (subst (λ (y : Reader). All (λ i. y.id ≢ i) (map (λ (x : Reader). x.id) rs)) (sym e) d.0)
          g q)
  loop-Suspension rows r row db (x ∷ rs) st s o (Memᴰ.tail m) d g q =
      let (a, b, c) = row-Leaves x (gate_of x.id rows) r.id st (ids_ne r x rs d.0 m) in
      loop-Suspension rows r row db rs (restore_row f digest now x (gate_of x.id rows) st) s o m d.1
        (b ∙ g) (c ∙ q)

-- A restart keeps every suspension, with its reason, fingerprint and meta, and its row in the store; but for a reader whose token was
-- revoked, has another one now, and has no row that waits: that one waits for its preflight. No queued row is lost.
pub restart_keeps_Suspension :
    (f : Fails) (digest : String → String) (now : ℕ) (rs : List Reader) (db : Db) (st : Started)
    (r : Reader) (row : GateRow)
    → restore f digest now rs db ≡ ok st
    → Distinct (map (λ (x : Reader). x.id) rs)
    → Memᴰ r rs
    → gate_of r.id db.gates ≡ some row
    → suspended row.state ≡ true
    → Suspension f digest now r row db st × (st.db.queue ≡ db.queue)
restart_keeps_Suspension f digest now rs db st r row h d m g s =
    subst (λ (x : Started). Suspension f digest now r row db x × (x.db.queue ≡ db.queue))
      (restore-eq-ok f digest now rs db st h)
      (loop-Suspension f digest now db.gates r row db rs (start db) s g m d g refl)
