-- ===== src/Sender/Stops.antt =====
-- What a round makes of the gates: which readers it stops, and when it stops all sending.
use rfid_middleware_idro900e.Prelude.{
  if◌then◌else◌, ℕ, String, Bool, true, false, none, some, str_eq, str_eq_refl, ◌≡◌, ◌⊎◌, refl,
  arith, inl, inr, Bool-cases, Option-cases, Option,
}
use rfid_middleware_idro900e.Domain.{
  millis, QueueItem, DeliveryDecision, complete, drop, retry, suspend_reader, halt_global, halted,
  Secret, SenderState, running, suspended_token, suspended_config, GateState,
}
use rfid_middleware_idro900e.Store.{Row, Db}
use rfid_middleware_idro900e.Store.Transaction.{Result, ok, failed}
use rfid_middleware_idro900e.Store.Queue.{
  next_due, to_item, retry_later, mark_attempt_keep_due, complete as complete_row,
}
use rfid_middleware_idro900e.Gate.{
  Registry, Entry, changed_entry, entry_or_zero, get_entry, sendable_readers, get, is_suspended,
  set, store,
}
use rfid_middleware_idro900e.Gate.Writes.{set_writes}
use rfid_middleware_idro900e.Congkong.Classify.{HttpResult, classify}
use rfid_middleware_idro900e.Sender.{
  Sender, Faults, World, settle, deliver_with, deliver, is_expired, round, picked, in_state,
}
use rfid_middleware_idro900e.Sender.Delivery.{post_of}

-- The one reader `r` is suspended in the state `st`, and nothing else changes.
abbrev pub Suspends : String → GateState → Registry → Registry → Type 0
Suspends r st reg reg' =
    ((e : Entry) × (get r reg' ≡ some e) × (e.state ≡ st))
    × (reg'.global ≡ reg.global)
    × ((j : String) → get j reg' ≡ (if str_eq r j then get r reg' else get j reg))

abbrev pub Halts : Registry → Registry → Type 0
Halts reg reg' = (reg'.global ≡ halted) × ((j : String) → get j reg' ≡ get j reg)

set-Suspends :
    (fails : Bool) (r : String) (st : GateState) (why : String) (now : ℕ) (reg : Registry) (db : Db)
    → Suspends r st reg (set (store fails) r st why now "" none reg db).registry
unfolding is_suspended get set
set-Suspends fails r st why now reg db = (
  (
    changed_entry st why "" none (entry_or_zero (get_entry r reg.entries)),
    ground (arith, (set_writes (store fails) r st why now reg db "" none r).0, str_eq_refl r),
    refl,
  ),
  refl,
  λ j. ground (
    arith,
    str_eq_refl r,
    (set_writes (store fails) r st why now reg db "" none j).0,
    (set_writes (store fails) r st why now reg db "" none r).0,
  ),
)

-- The gates after `settle`.
abbrev pub Settled : QueueItem → Registry → Registry → DeliveryDecision → Type 0
Settled item reg reg' suspend_reader = Suspends item.reader_id suspended_token reg reg'
Settled item reg reg' halt_global = Halts reg reg'
Settled item reg reg' _ = reg' ≡ reg

pub settle-Settled :
    (s : Sender) (f : Faults) (now : ℕ) (item : QueueItem) (res : HttpResult) (class : String)
    (w : World) (d : DeliveryDecision)
    → Settled item w.reg (settle s f now item res d class w).reg d
unfolding settle complete_row retry_later mark_attempt_keep_due get
settle-Settled s f now item res class w complete = ground arith
settle-Settled s f now item res class w drop = ground arith
settle-Settled s f now item res class w retry = ground arith
settle-Settled s f now item res class w suspend_reader = elim (Bool-cases f.queue) [
  | inl t ↦ rw t (set-Suspends f.gate item.reader_id suspended_token _ (millis now) w.reg w.db)
  | inr t ↦ rw t (
      set-Suspends f.gate item.reader_id suspended_token _ (millis now) w.reg
        (complete_row false item.id w.db).1)
]
settle-Settled s f now item res class w halt_global = elim (Bool-cases f.queue) [
  | inl t ↦ rw t (refl, λ j. refl)
  | inr t ↦ rw t (refl, λ j. refl)
]

-- What the delivery of a row makes of the gates: nothing where it is too old; its reader is suspended where it has no
-- token; and otherwise what the answer decides.
abbrev pub Gated : Sender → ℕ → Row → Registry → Registry → Type 0
Gated s now row reg reg' =
    (is_expired s.max_age now (to_item row) ≡ true) × (reg' ≡ reg)
    ⊎ (is_expired s.max_age now (to_item row) ≡ false)
      × (s.creds row.reader_id ≡ none)
      × Suspends row.reader_id suspended_config reg reg'
    ⊎ (is_expired s.max_age now (to_item row) ≡ false)
      × ((token : Secret) × (s.creds row.reader_id ≡ some token)
          × Settled (to_item row) reg reg' (classify (s.answer (post_of token row))).0)

deliver-Gated :
    (s : Sender) (f : Faults) (now : ℕ) (row : Row) (w : World)
    → Gated s now row w.reg (deliver s f now (to_item row) w).reg
unfolding deliver deliver_with complete_row
deliver-Gated s f now row w = elim (Bool-cases (is_expired s.max_age now (to_item row))) [
  | inl t ↦ inl (t, rw t ground arith)
  | inr t ↦ elim (Option-cases (s.creds row.reader_id)) [
    | inl e ↦ inr (
        inl (
          t,
          e,
          rw (t, e, deliver_with)
              (set-Suspends f.gate row.reader_id suspended_config _ (millis now) w.reg w.db),
        ))
    | inr (token, e) ↦
        let res = s.answer (post_of token row) in
        inr (
          inr (
            t,
            (
              token,
              e,
              rw (t, e, deliver_with)
                  (settle-Settled s f now (to_item row) res (classify res).1 _ (classify res).0),
            ),
          ))
  ]
]

-- The first due row of a reader that may send, as the store finds it for a sender that runs.
abbrev pub first_due : Faults → ℕ → World → Result (Option Row)
first_due f now w = next_due f.read (millis now) (sendable_readers w.reg) w.db

-- What becomes of the gates in a round.
abbrev pub Changes : Sender → Faults → ℕ → World → Registry → Type 0
Changes s f now w reg' =
    ((w.reg.global ≡ halted) ⊎ (first_due f now w ≡ failed) ⊎ (first_due f now w ≡ ok none))
      × (reg' ≡ w.reg)
    ⊎ ((row : Row) × (w.reg.global ≡ running)
        × (first_due f now w ≡ ok (some row))
        × Gated s now row w.reg reg')

picked_gates :
    (s : Sender) (f : Faults) (now : ℕ) (w : World) (r : Result (Option Row))
    → w.reg.global ≡ running
    → first_due f now w ≡ r
    → Changes s f now w (picked s f now w r).0.reg
unfolding picked
picked_gates s f now w failed g e = inl (inr (inl e), refl)
picked_gates s f now w (ok none) g e = inl (inr (inr e), refl)
picked_gates s f now w (ok (some row)) g e = inr (row, g, e, deliver-Gated s f now row w)

state_gates :
    (s : Sender) (f : Faults) (now : ℕ) (w : World) (st : SenderState)
    → w.reg.global ≡ st
    → Changes s f now w (in_state s f now w st).0.reg
unfolding in_state
state_gates s f now w halted g = inl (inl g, refl)
state_gates s f now w running g = picked_gates s f now w _ g refl

-- A round of a halted sender, or of one that finds no due row, leaves the gates as they are. Any other leaves them so but for what comes of the
-- first due row: it is too old, and nothing changes; or its reader has no token and is suspended for that; or it has one, and on the answer to the row's request
-- that reader is suspended for its token, all sending halts, or nothing changes, as the answer's decision is.
pub round_gates :
    (s : Sender) (f : Faults) (now : ℕ) (w : World) → Changes s f now w (round s f now w).0.reg
unfolding round
round_gates s f now w = state_gates s f now w w.reg.global refl
