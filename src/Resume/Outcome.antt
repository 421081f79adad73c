-- ===== src/Resume/Outcome.antt =====
-- What `QueueResume` leaves.
use rfid_middleware_idro900e.Prelude.{
  ℕ, String, Bool, true, false, not, ◌&&◌, ◌||◌, Option, none, some, str_eq, if◌then◌else◌, ◌≡◌,
  ◌⊎◌, refl, arith, inl, inr, Bool-cases, List, select,
}
use rfid_middleware_idro900e.Domain.{suspended, preflight_pending}
use rfid_middleware_idro900e.Store.{Db, GateRow, Row}
use rfid_middleware_idro900e.Store.Transaction.{Result, ok, failed}
use rfid_middleware_idro900e.Store.Queue.{pending_count, discard_pending, of_reader}
use rfid_middleware_idro900e.Store.Gates.{set_gate, gate_of, gate_of-upsert_gate}
use rfid_middleware_idro900e.Resume.{
  Given, Resumed, release, after_discard, after_count, resume_row, queue_resume,
}

-- The gate of `r` is reset, those of the others are not.
abbrev pub IsReset : String → ℕ → GateRow → Db → Db → Type 0
IsReset r now row db db' =
    (j : String)
    → gate_of j db'.gates ≡ (
        if str_eq r j
        then some (record {
          reader_id = r;
          state = preflight_pending;
          reason = "operator resume";
          changed_at_ms = now;
          token_fingerprint = row.token_fingerprint;
          meta = row.meta;
        })
        else gate_of j db.gates)

abbrev kept : Bool → String → Db → List Row
kept d r db = if d then select (λ q. not (of_reader r q)) db.queue else db.queue

-- The command fails, and no gate has changed; or the reader was suspended.
abbrev pub Outcome : Bool → String → ℕ → Db → Resumed → Type 0
Outcome d r now db res =
    (res.0 ≡ failed) × (res.1.gates ≡ db.gates)
    ⊎ ((row : GateRow) × (gate_of r db.gates ≡ some row)
        × (suspended row.state ≡ true)
        × ¬ (res.0 ≡ failed)
        × (res.1.queue ≡ kept d r db)
        × IsReset r now row db res.1)

module _ (g : Given) (what r : String) (now : ℕ) (db : Db) (row : GateRow)
    (e : gate_of r db.gates ≡ some row) (s : suspended row.state ≡ true) where
  release_outcome :
      (d : Bool) (n m : ℕ) (db' : Db)
      → db'.gates ≡ db.gates
      → db'.queue ≡ kept d r db
      → Outcome d r now db (release g r now row n m db')
  unfolding release set_gate
  release_outcome d n m db' h q = elim (Bool-cases g.set_fails) [
    | inl t ↦ rw t (inl (refl, h))
    | inr t ↦ rw t (
        inr (
          row,
          e,
          s,
          (λ x. cc x),
          q,
          λ j. rw h (
              ground (
                arith,
                gate_of-upsert_gate r j preflight_pending "operator resume" now
                    row.token_fingerprint none db.gates,
                e,
              )),
        ))
  ]

  count_outcome :
      (d : Bool)
      → str_eq what "discard" ≡ d
      → (res : Result ℕ) → Outcome d r now db (after_count g what r now row db res)
  unfolding after_count discard_pending after_discard
  count_outcome d t failed = inl (refl, refl)
  count_outcome false t (ok n) = rw t (release_outcome false n 0 db refl refl)
  count_outcome true t (ok n) = elim (Bool-cases g.discard_fails) [
    | inl f ↦ rw t (rw f (inl (refl, refl)))
    | inr f ↦ rw t (
        rw f (
          release_outcome true n _
            (record db { queue = select (λ q. not (of_reader r q)) db.queue }) refl refl))
  ]

row_outcome :
    (g : Given) (what r : String) (now : ℕ) (db : Db) (o : Option GateRow)
    → gate_of r db.gates ≡ o
    → Outcome (str_eq what "discard") r now db (resume_row g what r now db o)
unfolding resume_row
row_outcome g what r now db none e = inl (refl, refl)
row_outcome g what r now db (some row) e = elim (Bool-cases (suspended row.state)) [
  | inl t ↦ rw t (count_outcome g what r now db row e t _ refl (pending_count g.count_fails r db))
  | inr t ↦ rw t (inl (refl, refl))
]

-- `QueueResume` fails and has changed no gate, or the reader was suspended, and waits for its preflight again, with its meta and
-- the fingerprint of its old token; the other readers' gates are as they were, and its rows are gone exactly if they were to be
-- discarded.
pub queue_resume_outcome :
    (g : Given) (what r : String) (now : ℕ) (db : Db)
    → Outcome (str_eq what "discard") r now db (queue_resume g what r now db)
unfolding queue_resume
queue_resume_outcome g what r now db =
    elim (Bool-cases (not (str_eq what "send") && not (str_eq what "discard"))) [
      | inl t ↦ rw t (inl (refl, refl))
      | inr t ↦
          elim (Bool-cases (not g.configured || not g.locked || not g.opened || g.gates_fail)) [
            | inl f ↦ rw (t, f) (inl (refl, refl))
            | inr f ↦ rw (t, f) (row_outcome g what r now db (gate_of r db.gates) refl)
          ]
    ]
