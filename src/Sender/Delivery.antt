-- ===== src/Sender/Delivery.antt =====
-- What a round sends, and what becomes of the rows.
use rfid_middleware_idro900e.Prelude.{
  ℕ, String, true, false, [], ◌∷◌, ◌++◌, Option, none, some, ◌≡◌, ◌⊎◌, refl, arith, inl, inr, Memᴰ,
  Bool-cases, Option-cases,
}
use rfid_middleware_idro900e.Domain.{
  millis, QueueItem, DeliveryDecision, complete, drop, retry, suspend_reader, halt_global,
  SenderState, running, halted, Secret,
}
use rfid_middleware_idro900e.Store.{Row}
use rfid_middleware_idro900e.Store.Transaction.{Result, ok, failed}
use rfid_middleware_idro900e.Store.Queue.{
  is_due, next_due, retry_later, mark_attempt_keep_due, to_item, complete as complete_row,
}
use rfid_middleware_idro900e.Store.Queue.Order.{next_due-Picks}
use rfid_middleware_idro900e.Gate.{sendable_readers}
use rfid_middleware_idro900e.Congkong.Classify.{HttpResult}
use rfid_middleware_idro900e.Sender.{
  Sender, Faults, World, Post, settle, deliver_with, deliver, is_expired, round, in_state, picked,
}

abbrev pub post_of : Secret → Row → Post
post_of token row = record { token = token; epc = row.epc; checked_at = row.checked_at }

pub settle_posts :
    (s : Sender) (f : Faults) (now : ℕ) (item : QueueItem) (res : HttpResult) (d : DeliveryDecision)
    (class : String) (w : World)
    → (settle s f now item res d class w).posts ≡ w.posts
unfolding settle complete_row retry_later mark_attempt_keep_due
settle_posts s f now item res complete class w = ground arith
settle_posts s f now item res drop class w = ground arith
settle_posts s f now item res retry class w = ground arith
settle_posts s f now item res suspend_reader class w = ground arith
settle_posts s f now item res halt_global class w = ground arith

-- What the delivery of a row sends: its request, or nothing where it is expired or has no token.
deliver_posts :
    (s : Sender) (f : Faults) (now : ℕ) (row : Row) (w : World)
    → ((deliver s f now (to_item row) w).posts ≡ w.posts)
      ⊎ ((token : Secret) × (is_expired s.max_age now (to_item row) ≡ false)
          × (s.creds row.reader_id ≡ some token)
          × ((deliver s f now (to_item row) w).posts ≡ w.posts ++ post_of token row ∷ []))
unfolding deliver deliver_with complete_row
deliver_posts s f now row w = elim (Bool-cases (is_expired s.max_age now (to_item row))) [
  | inl t ↦ inl (rw t ground arith)
  | inr t ↦ elim (Option-cases (s.creds row.reader_id)) [
    | inl e ↦ inl (rw (t, e, deliver_with) refl)
    | inr (token, e) ↦ inr (
      token,
      t,
      e,
      rw (t, e, deliver_with)
          (settle_posts s f now (to_item row) (s.answer (post_of token row)) _ _ _),
    )
  ]
]

-- A round that waits changes neither the tables nor the gates and sends nothing. Any other delivers
-- a due row of a reader that may send.
abbrev pub Cases : Sender → Faults → ℕ → World → World × Option ℕ → Type 0
Cases s f now w r =
    ((d : ℕ) × (r.1 ≡ some d) × (r.0.posts ≡ w.posts) × (r.0.db ≡ w.db) × (r.0.reg ≡ w.reg))
    ⊎ ((row : Row) × (w.reg.global ≡ running)
        × Memᴰ row w.db.queue
        × (is_due (millis now) (sendable_readers w.reg) row ≡ true)
        × (r ≡ (deliver s f now (to_item row) w, none)))

picked_cases :
    (s : Sender) (f : Faults) (now : ℕ) (w : World) (res : Result (Option Row))
    → w.reg.global ≡ running
    → next_due f.read (millis now) (sendable_readers w.reg) w.db ≡ res
    → Cases s f now w (picked s f now w res)
unfolding picked
picked_cases s f now w failed g h = inl (_, refl, refl, refl, refl)
picked_cases s f now w (ok none) g h = inl (_, refl, refl, refl, refl)
picked_cases s f now w (ok (some row)) g h =
    let (m, t, _) = next_due-Picks f.read (millis now) (sendable_readers w.reg) w.db (some row) h in
    inr (row, g, m, t, refl)

state_cases :
    (s : Sender) (f : Faults) (now : ℕ) (w : World) (st : SenderState)
    → w.reg.global ≡ st
    → Cases s f now w (in_state s f now w st)
unfolding in_state
state_cases s f now w halted g = inl (_, refl, refl, refl, refl)
state_cases s f now w running g = picked_cases s f now w _ g refl

pub round_cases :
    (s : Sender) (f : Faults) (now : ℕ) (w : World) → Cases s f now w (round s f now w)
unfolding round
round_cases s f now w = state_cases s f now w w.reg.global refl

-- What a round may send.
abbrev pub MaySend : Sender → Faults → ℕ → World → Type 0
MaySend s f now w =
    ((round s f now w).0.posts ≡ w.posts)
    ⊎ ((row : Row) × (token : Secret) × (w.reg.global ≡ running)
        × Memᴰ row w.db.queue
        × (is_due (millis now) (sendable_readers w.reg) row ≡ true)
        × (is_expired s.max_age now (to_item row) ≡ false)
        × (s.creds row.reader_id ≡ some token)
        × ((round s f now w).0.posts ≡ w.posts ++ post_of token row ∷ []))

-- A round sends nothing, or the one request of a row that stands in the queue, is due, is of a reader that may
-- send, is not too old, and has a token; then the sender is not halted.
pub round_posts : (s : Sender) (f : Faults) (now : ℕ) (w : World) → MaySend s f now w
round_posts s f now w = elim (round_cases s f now w) [
  | inl (d, _, e, _, _) ↦ inl e
  | inr (row, g, m, t, e) ↦ elim (deliver_posts s f now row w) [
    | inl h ↦ inl (rw e h)
    | inr (token, x, c, h) ↦ inr (row, token, g, m, t, x, c, rw e h)
  ]
]
