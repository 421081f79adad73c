-- ===== src/Sender/Tables.antt =====
-- What a round makes of the tables.
use rfid_middleware_idro900e.Prelude.{
  ℕ, ◌+◌, String, true, none, some, ◌≡◌, ◌⊎◌, refl, arith, inl, inr, Bool-cases, Option-cases,
}
use rfid_middleware_idro900e.Domain.{
  millis, QueueItem, DeliveryDecision, complete, drop, retry, suspend_reader, halt_global, Secret,
  suspended_token, suspended_config,
}
use rfid_middleware_idro900e.Store.{Row, Db}
use rfid_middleware_idro900e.Store.Gates.{set_gate}
use rfid_middleware_idro900e.Store.Queue.{
  retry_later, mark_attempt_keep_due, to_item, complete as complete_row,
}
use rfid_middleware_idro900e.Store.Invariant.Reach.{Reach, next, completes, retries, marks, gates}
use rfid_middleware_idro900e.Gate.{persist, set}
use rfid_middleware_idro900e.Congkong.Classify.{HttpResult, classify}
use rfid_middleware_idro900e.Sender.{
  Sender, Faults, World, settle, deliver_with, deliver, is_expired, round, backoff_delay,
}
use rfid_middleware_idro900e.Sender.Delivery.{post_of, round_cases}

-- The tables after `settle`, for each decision.
abbrev pub settled : Faults → ℕ → QueueItem → HttpResult → String → Db → DeliveryDecision → Db
settled f now item res class db complete = (complete_row f.queue item.id db).1
settled f now item res class db drop = (complete_row f.queue item.id db).1
settled f now item res class db retry =
    (retry_later f.queue item.id (millis (now + backoff_delay (item.attempt_count + 1))) class
      res.status db).1
settled f now item res class db suspend_reader =
    (set_gate f.gate item.reader_id suspended_token "404 — 토큰 회수/무효" (millis now) "" none
      (complete_row f.queue item.id db).1).1
settled f now item res class db halt_global =
    (mark_attempt_keep_due f.queue item.id class res.status db).1

pub settle_db :
    (s : Sender) (f : Faults) (now : ℕ) (item : QueueItem) (res : HttpResult) (class : String)
    (w : World) (d : DeliveryDecision)
    → (settle s f now item res d class w).db ≡ settled f now item res class w.db d
unfolding settle complete_row retry_later mark_attempt_keep_due set persist
settle_db s f now item res class w complete = ground arith
settle_db s f now item res class w drop = ground arith
settle_db s f now item res class w retry = ground arith
settle_db s f now item res class w suspend_reader = ground arith
settle_db s f now item res class w halt_global = ground arith

settled-Reach :
    (f : Faults) (now : ℕ) (item : QueueItem) (res : HttpResult) (class : String) (db : Db)
    (d : DeliveryDecision) (i : ℕ)
    → Reach i db
    → Reach i (settled f now item res class db d)
settled-Reach f now item res class db complete i h = next h (completes f.queue item.id)
settled-Reach f now item res class db drop i h = next h (completes f.queue item.id)
settled-Reach f now item res class db retry i h =
    next h (retries f.queue item.id _ class res.status)
settled-Reach f now item res class db suspend_reader i h =
    next (next h (completes f.queue item.id))
      (gates f.gate item.reader_id suspended_token _ (millis now) "" none)
settled-Reach f now item res class db halt_global i h =
    next h (marks f.queue item.id class res.status)

pub settle-Reach :
    (s : Sender) (f : Faults) (now : ℕ) (item : QueueItem) (res : HttpResult) (class : String)
    (w : World) (d : DeliveryDecision) (i : ℕ)
    → Reach i w.db
    → Reach i (settle s f now item res d class w).db
settle-Reach s f now item res class w d i h =
    rw (settle_db s f now item res class w d) (settled-Reach f now item res class w.db d i h)

-- How a delivery leaves the tables.
abbrev pub Delivered : Sender → Faults → ℕ → Row → World → World → Type 0
Delivered s f now row w w' =
    (is_expired s.max_age now (to_item row) ≡ true) × (w'.db ≡ (complete_row f.queue row.id w.db).1)
    ⊎ (s.creds row.reader_id ≡ none)
      × (w'.db
          ≡ (set_gate f.gate row.reader_id suspended_config "reader 가 설정에 없음" (millis now) "" none
              w.db).1)
    ⊎ ((token : Secret) × (s.creds row.reader_id ≡ some token)
        × (let v = classify (s.answer (post_of token row)) in
            w'.db ≡ settled f now (to_item row) (s.answer (post_of token row)) v.1 w.db v.0))

pub deliver-Delivered :
    (s : Sender) (f : Faults) (now : ℕ) (row : Row) (w : World)
    → Delivered s f now row w (deliver s f now (to_item row) w)
unfolding deliver deliver_with complete_row set persist
deliver-Delivered s f now row w = elim (Bool-cases (is_expired s.max_age now (to_item row))) [
  | inl t ↦ inl (t, rw t ground arith)
  | inr t ↦ inr (elim (Option-cases (s.creds row.reader_id)) [
    | inl e ↦ inl (e, rw (t, e, deliver_with) refl)
    | inr (token, e) ↦ inr (
      token,
      e,
      rw (t, e, deliver_with)
          (settle_db s f now (to_item row) (s.answer (post_of token row)) _ _ _),
    )
  ])
]

deliver-Reach :
    (s : Sender) (f : Faults) (now : ℕ) (row : Row) (w : World) (i : ℕ)
    → Reach i w.db
    → Reach i (deliver s f now (to_item row) w).db
deliver-Reach s f now row w i h = elim (deliver-Delivered s f now row w) [
  | inl (_, e) ↦ rw e (next h (completes f.queue row.id))
  | inr (inl (_, e)) ↦
      rw e (next h (gates f.gate row.reader_id suspended_config _ (millis now) "" none))
  | inr (inr (token, _, e)) ↦
      rw e (settled-Reach f now (to_item row) (s.answer (post_of token row)) _ w.db _ i h)
]

-- A round goes, from tables that the store's operations reach, to such tables, whatever the server answers and whichever calls of the store fail.
pub round-Reach :
    (s : Sender) (f : Faults) (now : ℕ) (w : World) (i : ℕ)
    → Reach i w.db
    → Reach i (round s f now w).0.db
round-Reach s f now w i h = elim (round_cases s f now w) [
  | inl (_, _, _, e, _) ↦ rw e h
  | inr (row, _, _, _, e) ↦ rw e (deliver-Reach s f now row w i h)
]
