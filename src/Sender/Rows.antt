-- ===== src/Sender/Rows.antt =====
-- What becomes of the rows in a round.
use rfid_middleware_idro900e.Prelude.{
  ℕ, String, Bool, true, false, not, List, map, Option, none, some, ◌==◌, ◌≡◌, ◌⊎◌, refl, arith,
  inl, inr, Memᴰ, mem_select_of, mem_map_of, Bool-cases,
}
use rfid_middleware_idro900e.Domain.{
  millis, QueueItem, DeliveryDecision, complete, drop, retry, suspend_reader, halt_global, Secret,
  GateState, GateMeta, suspended_token, suspended_config,
}
use rfid_middleware_idro900e.Store.{Row, Db}
use rfid_middleware_idro900e.Store.Gates.{set_gate}
use rfid_middleware_idro900e.Store.Queue.{
  is_due, without_id, retry_later, mark_attempt_keep_due, to_item, complete as complete_row,
}
use rfid_middleware_idro900e.Store.Invariant.Reach.{retried-KeepsRead, marked-KeepsRead}
use rfid_middleware_idro900e.Store.Invariant.{KeepsRead}
use rfid_middleware_idro900e.Gate.{sendable_readers}
use rfid_middleware_idro900e.Congkong.Classify.{HttpResult, classify}
use rfid_middleware_idro900e.Sender.{Sender, Faults, World, deliver, is_expired, round}
use rfid_middleware_idro900e.Sender.Delivery.{post_of, round_cases}
use rfid_middleware_idro900e.Sender.Tables.{settled, deliver-Delivered}

-- The read that the row stands for is still queued.
abbrev pub StillQueued : Row → List Row → Type 0
StillQueued q rows =
    (q' : Row) × Memᴰ q' rows
    × (q'.id ≡ q.id)
    × (q'.reader_id ≡ q.reader_id)
    × (q'.epc ≡ q.epc)
    × (q'.checked_at ≡ q.checked_at)
    × (q'.checked_at_ms ≡ q.checked_at_ms)

same : (q : Row) (rows : List Row) → Memᴰ q rows → StillQueued q rows
same q rows m = (q, m, refl, refl, refl, refl, refl)

without_id-keeps :
    (id : ℕ) (q : Row) (rows : List Row)
    → Memᴰ q rows
    → (q.id ≡ id) ⊎ StillQueued q (without_id id rows)
unfolding without_id
without_id-keeps id q rows m = elim (Bool-cases (q.id == id)) [
  | inl t ↦ inl (ground (arith, t))
  | inr t ↦ inr (same q _ (mem_select_of (λ r. not (r.id == id)) q rows (rw t refl) m))
]

map-keeps :
    (f : Row → Row) (q : Row) (rows : List Row)
    → KeepsRead f
    → Memᴰ q rows
    → StillQueued q (map f rows)
map-keeps f q rows k m = let (i, r, e, c, t) = k q in (f q, mem_map_of f q rows m, i, r, e, c, t)

-- Whether the decision takes the row out of the queue.
abbrev pub Removes : DeliveryDecision → Type 0
Removes retry = ⊥
Removes halt_global = ⊥
Removes _ = Unit

complete-keeps :
    (fails : Bool) (id : ℕ) (q : Row) (db : Db)
    → Memᴰ q db.queue
    → (q.id ≡ id) ⊎ StillQueued q (complete_row fails id db).1.queue
unfolding complete_row
complete-keeps true id q db m = inr (same q _ m)
complete-keeps false id q db m = without_id-keeps id q db.queue m

set_gate-queue :
    (fails : Bool) (r : String) (st : GateState) (why : String) (now : ℕ) (fp : String)
    (m : Option GateMeta) (db : Db)
    → (set_gate fails r st why now fp m db).1.queue ≡ db.queue
unfolding set_gate
set_gate-queue fails r st why now fp m db = ground arith

settled-keeps :
    (f : Faults) (now : ℕ) (item : QueueItem) (res : HttpResult) (class : String) (db : Db)
    (d : DeliveryDecision) (q : Row)
    → Memᴰ q db.queue
    → ((q.id ≡ item.id) × Removes d) ⊎ StillQueued q (settled f now item res class db d).queue
unfolding retry_later mark_attempt_keep_due
settled-keeps f now item res class db complete q m = elim (complete-keeps f.queue item.id q db m) [
  | inl e ↦ inl (e, tt)
  | inr k ↦ inr k
]
settled-keeps f now item res class db drop q m = elim (complete-keeps f.queue item.id q db m) [
  | inl e ↦ inl (e, tt)
  | inr k ↦ inr k
]
settled-keeps f now item res class db retry q m = elim (Bool-cases f.queue) [
  | inl t ↦ inr (rw t (same q _ m))
  | inr t ↦ inr (rw t (map-keeps _ q db.queue (retried-KeepsRead item.id _ class res.status) m))
]
settled-keeps f now item res class db suspend_reader q m =
    elim (complete-keeps f.queue item.id q db m) [
      | inl e ↦ inl (e, tt)
      | inr k ↦ inr (
          rw
            (set_gate-queue f.gate item.reader_id suspended_token "404 — 토큰 회수/무효" (millis now) ""
              none (complete_row f.queue item.id db).1)
            k)
    ]
settled-keeps f now item res class db halt_global q m = elim (Bool-cases f.queue) [
  | inl t ↦ inr (rw t (same q _ m))
  | inr t ↦ inr (rw t (map-keeps _ q db.queue (marked-KeepsRead item.id class res.status) m))
]

-- Why a row may leave the queue: it is too old, or the answer to its request decides so.
abbrev pub MayLeave : Sender → ℕ → Row → Type 0
MayLeave s now row =
    (is_expired s.max_age now (to_item row) ≡ true)
    ⊎ ((token : Secret) × (s.creds row.reader_id ≡ some token)
        × Removes (classify (s.answer (post_of token row))).0)

deliver-keeps :
    (s : Sender) (f : Faults) (now : ℕ) (row : Row) (w : World) (q : Row)
    → Memᴰ q w.db.queue
    → ((q.id ≡ row.id) × MayLeave s now row)
      ⊎ StillQueued q (deliver s f now (to_item row) w).db.queue
deliver-keeps s f now row w q m = elim (deliver-Delivered s f now row w) [
  | inl (t, e) ↦ elim (complete-keeps f.queue row.id q w.db m) [
    | inl i ↦ inl (i, inl t)
    | inr k ↦ inr (rw e k)
  ]
  | inr (inl (_, e)) ↦ inr (
      rw
        (
          e,
          set_gate-queue f.gate row.reader_id suspended_config "reader 가 설정에 없음" (millis now) ""
              none w.db,
        )
        (same q _ m))
  | inr (inr (token, c, e)) ↦
      elim (settled-keeps f now (to_item row) (s.answer (post_of token row))
        (classify (s.answer (post_of token row))).1 w.db (classify (s.answer (post_of token row))).0
        q m) [ inl (i, v) ↦ inl (i, inr (token, c, v)) | inr k ↦ inr (rw e k) ]
]

-- What may become of a row in a round.
abbrev pub Fate : Sender → Faults → ℕ → World → Row → Type 0
Fate s f now w q =
    StillQueued q (round s f now w).0.db.queue
    ⊎ ((row : Row) × (q.id ≡ row.id)
        × Memᴰ row w.db.queue
        × (is_due (millis now) (sendable_readers w.reg) row ≡ true)
        × MayLeave s now row)

-- A round loses no read: each row stays in the queue, with its identifier, EPC and `checkedAt`, unless it is the row
-- that the round picked, which was due and of a reader that may send, and either it was too old or the answer to its request
-- decided that it is done with.
pub round_keeps :
    (s : Sender) (f : Faults) (now : ℕ) (w : World) (q : Row) → Memᴰ q w.db.queue → Fate s f now w q
round_keeps s f now w q m = elim (round_cases s f now w) [
  | inl (_, _, _, e, _) ↦ inl (rw e (same q _ m))
  | inr (row, _, n, t, e) ↦ elim (deliver-keeps s f now row w q m) [
    | inl (i, l) ↦ inr (row, i, n, t, l)
    | inr k ↦ inl (rw e k)
  ]
]
