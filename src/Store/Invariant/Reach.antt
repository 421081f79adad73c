-- ===== src/Store/Invariant/Reach.antt =====
-- The tables that the operations of the store can reach.
use rfid_middleware_idro900e.Prelude.{
  ℕ, ◌<◌, refl, String, Bool, true, false, not, Option, Bytes, map, inl, inr, Bool-cases, ◌==◌,
  select,
}
use rfid_middleware_idro900e.Domain.{GateState, GateMeta}
use rfid_middleware_idro900e.Store.{Db, empty, Call, admit}
use rfid_middleware_idro900e.Store.Queue.{
  without_id, complete, on_id, retried, marked, retry_later, mark_attempt_keep_due, is_before,
  expire_before, cleanup_debounce, of_reader, discard_pending, is_empty, to_expired,
}
use rfid_middleware_idro900e.Store.Gates.{set_gate}
use rfid_middleware_idro900e.Store.Invariant.{IsWf, KeepsRead, select-IsWf, map-IsWf, admit-IsWf}
use rfid_middleware_idro900e.Store.Invariant.Cleanup.{cleanup-IsWf}

-- One operation of the store, with whatever failures, under the debounce interval `d`.
pub data Step (d : ℕ) (db : Db) : Db → Type 0 where
  admits :
      (fails : Call → Bool) (r : String) (e : Bytes) (received : ℕ) (checked_at : String)
      → Step d db (admit fails r e received checked_at d db).1
  completes : (fails : Bool) (id : ℕ) → Step d db (complete fails id db).1
  retries :
      (fails : Bool) (id due : ℕ) (class : String) (status : ℕ)
      → Step d db (retry_later fails id due class status db).1
  marks :
      (fails : Bool) (id : ℕ) (class : String) (status : ℕ)
      → Step d db (mark_attempt_keep_due fails id class status db).1
  expires : (fails : Bool) (cutoff : ℕ) → Step d db (expire_before fails cutoff db).1
  cleans : (fails : Bool) (before : ℕ) → Step d db (cleanup_debounce fails before db).1
  discards : (fails : Bool) (r : String) → Step d db (discard_pending fails r db).1
  gates :
      (fails : Bool) (r : String) (st : GateState) (why : String) (now : ℕ) (fp : String)
      (m : Option GateMeta)
      → Step d db (set_gate fails r st why now fp m db).1

pub data Reach (d : ℕ) : Db → Type 0 where
  start : Reach d empty
  next : {db db' : Db} → Reach d db → Step d db db' → Reach d db'

empty-IsWf : (d : ℕ) → IsWf d empty
empty-IsWf d = record { ordered = tt; below = tt; covered = tt; unique = tt }

pub retried-KeepsRead :
    (id due : ℕ) (class : String) (status : ℕ) → KeepsRead (on_id id (retried due class status))
retried-KeepsRead id due class status a = elim (Bool-cases (a.id == id)) [
  | inl t ↦ rw t (refl, refl, refl, refl, refl)
  | inr t ↦ rw t (refl, refl, refl, refl, refl)
]

pub marked-KeepsRead :
    (id : ℕ) (class : String) (status : ℕ) → KeepsRead (on_id id (marked class status))
marked-KeepsRead id class status a = elim (Bool-cases (a.id == id)) [
  | inl t ↦ rw t (refl, refl, refl, refl, refl)
  | inr t ↦ rw t (refl, refl, refl, refl, refl)
]

pub expire-IsWf :
    (d : ℕ) (fails : Bool) (cutoff : ℕ) (db : Db)
    → IsWf d db
    → IsWf d (expire_before fails cutoff db).1
unfolding expire_before
expire-IsWf d true cutoff db w = w
expire-IsWf d false cutoff db w =
    elim (Bool-cases (is_empty (map to_expired (select (is_before cutoff) db.queue)))) [
      | inl t ↦ rw t w
      | inr t ↦ rw t (select-IsWf d (λ r. not (is_before cutoff r)) db w)
    ]

-- Each operation keeps the tables well-formed, whether its statements succeed or fail.
pub Step-IsWf : (d : ℕ) {db db' : Db} → 0 < d → Step d db db' → IsWf d db → IsWf d db'
unfolding complete without_id retry_later mark_attempt_keep_due discard_pending set_gate
Step-IsWf d {db} p (admits fails r e received checked_at) w =
    admit-IsWf d p fails r e received checked_at db w
Step-IsWf d p (completes true id) w = w
Step-IsWf d {db} p (completes false id) w = select-IsWf d (λ r. not (r.id == id)) db w
Step-IsWf d p (retries true id due class status) w = w
Step-IsWf d {db} p (retries false id due class status) w =
    map-IsWf d _ (retried-KeepsRead id due class status) db w
Step-IsWf d p (marks true id class status) w = w
Step-IsWf d {db} p (marks false id class status) w =
    map-IsWf d _ (marked-KeepsRead id class status) db w
Step-IsWf d {db} p (expires fails cutoff) w = expire-IsWf d fails cutoff db w
Step-IsWf d {db} p (cleans fails before) w = cleanup-IsWf d fails before db w
Step-IsWf d p (discards true r) w = w
Step-IsWf d {db} p (discards false r) w = select-IsWf d (λ row. not (of_reader r row)) db w
Step-IsWf d p (gates true r st why now fp m) w = w
Step-IsWf d p (gates false r st why now fp m) w = record {
  ordered = w.ordered;
  below = w.below;
  covered = w.covered;
  unique = w.unique;
}

-- In all tables that operations can reach from the empty ones, under a debounce interval that is
-- not zero: identifiers ascend along the queue and stay below the next one, two rows of one tag at
-- one reader are the interval apart, the debounce state remembers an instant for each row's key
-- that is not before the row's, and no key stands in it twice.
pub Reach-IsWf : (d : ℕ) {db : Db} → 0 < d → Reach d db → IsWf d db
Reach-IsWf d p start = empty-IsWf d
Reach-IsWf d p (next r s) = Step-IsWf d p s (Reach-IsWf d p r)
