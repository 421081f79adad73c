-- ===== src/Sender/Work.antt =====
-- How much the due rows may take of the rounds of `Run`, and what a delivery takes of it: internal/sender/sender.go.
use mathlib.Core.List.{map-id}
use mathlib.Core.Path.{subst}
use rfid_middleware_idro900e.Prelude.{
  ℕ, ◌+◌, ◌≤◌, String, Bool, true, false, not, map, none, ◌==◌, if◌then◌else◌, ◌≡◌, ◌⊎◌, refl,
  arith, inl, inr, Memᴰ, Bool-cases, Option-cases, count, str_eq, str_eq_refl, ==_refl, ◌-◌, ◌*◌,
}
use rfid_middleware_idro900e.Domain.{
  millis, DeliveryDecision, complete, drop, retry, suspend_reader, halt_global, halted,
  suspended_token, suspended_config, sendable,
}
use rfid_middleware_idro900e.Store.{Row}
use rfid_middleware_idro900e.Store.Queue.{
  is_due, one_of, without_id, on_id, retried, to_item, retry_later, mark_attempt_keep_due,
  complete as complete_row,
}
use rfid_middleware_idro900e.Store.Gates.{set_gate}
use rfid_middleware_idro900e.Gate.{
  Entry, Entries, get_entry, put_entry, changed_entry, entry_or_zero, set, persist, sendable_of,
  sendable_readers,
}
use rfid_middleware_idro900e.Gate.Entries.{
  KeysUnique, KeysUnique-put_entry, one_of-sendable_of, get_entry-put_entry,
}
use rfid_middleware_idro900e.Congkong.Classify.{HttpResult, classify}
use rfid_middleware_idro900e.Sender.{
  Sender, Faults, World, settle, deliver_with, deliver, is_expired, backoff_delay,
}
use rfid_middleware_idro900e.Sender.Delivery.{post_of}
use rfid_middleware_idro900e.Sender.Counting.{load, load-le-count, load-map-lt, load-select-lt}
use rfid_middleware_idro900e.Store.Invariant.{Ordered}
use Prim.Native.Nat.{min}

-- A retry waits five seconds at least and two minutes at most.
pub backoff_bounds :
    (n : ℕ) → (5_000_000_000 ≤ backoff_delay n) × (backoff_delay n ≤ 120_000_000_000)
unfolding backoff_delay
backoff_bounds n = ground arith

-- The instant of the next attempt is later than now.
later : (now n : ℕ) → millis now + 5_000 ≤ millis (now + backoff_delay n)
unfolding millis
later now n = omega (arith, backoff_bounds n)

-- `Set` to a state that is not sendable takes its reader from the sendable ones, and no other.
module _ (r : String) (e : Entry) (es : Entries) (u : KeysUnique es)
    (n : sendable e.state ≡ false) where
  put_entry_shrinks :
      (j : String)
      → one_of (sendable_of (put_entry r e es)) j
        ≡ (if str_eq r j then false else one_of (sendable_of es) j)
  put_entry_shrinks j = ground (
    arith,
    n,
    one_of-sendable_of es j u,
    one_of-sendable_of (put_entry r e es) j (KeysUnique-put_entry r e es u),
    get_entry-put_entry r j e es,
  )

-- The rows of readers that may send which are due by an instant.
abbrev pub due_in : ℕ → World → Row → Bool
due_in now w = is_due (millis now) (sendable_readers w.reg)

abbrev pub due_count : ℕ → World → ℕ
due_count now w = count (due_in now w) w.db.queue

-- From one instant to another, what a row may take of the sender's rounds: five seconds, and the time that it is due.
abbrev pub weight : ℕ → ℕ → World → Row → ℕ
weight start till w q =
    if due_in till w q
    then 5_000 + min (millis till - q.next_attempt_ms) (millis till - millis start)
    else 0

abbrev pub work : ℕ → ℕ → World → ℕ
work start till w = load (weight start till w) w.db.queue

pub work_le :
    (start till : ℕ) (w : World)
    → work start till w ≤ due_count till w * (5_000 + (millis till - millis start))
work_le start till w = load-le-count _ _ _ (λ q. ground arith) w.db.queue

-- A delivery from `w` to `w'` halts the sender or lowers the work by five seconds, and keeps the entries' keys unique.
abbrev pub Progress : ℕ → ℕ → World → World → Type 0
Progress start till w w' =
    KeysUnique w'.reg.entries
    × ((w'.reg.global ≡ halted) ⊎ (work start till w' + 5_000 ≤ work start till w))

pub millis_le : (a b : ℕ) → a ≤ b → millis a ≤ millis b
unfolding millis
millis_le a b h = omega arith

module _ (start till now : ℕ) (row : Row) (w w' : World) (from : millis start ≤ millis now)
    (to : millis now ≤ millis till) (u : KeysUnique w.reg.entries) (m : Memᴰ row w.db.queue)
    (t : due_in now w row ≡ true) where
  heavy : 5_000 ≤ weight start till w row
  heavy = ground (arith, t)

  pub work_heavy : 5_000 ≤ work start till w
  work_heavy = omega (
    arith,
    load-select-lt (weight start till w) (λ q. 0) (λ q. false) (λ q. omega arith) 5_000 row
        w.db.queue m refl heavy,
  )

  removed : w'.reg ≡ w.reg → w'.db.queue ≡ without_id row.id w.db.queue → Progress start till w w'
  unfolding without_id
  removed e d =
      rw (e, d)
        (
          u,
          inr (
              load-select-lt (weight start till w) (weight start till w) (λ r. not (r.id == row.id))
                (λ q. omega arith) 5_000 row w.db.queue m (ground arith) heavy),
        )

  postponed :
      (i due : ℕ) (class : String) (status : ℕ)
      → Ordered i w.db.queue
      → millis now + 5_000 ≤ due
      → w'.reg ≡ w.reg
      → w'.db.queue ≡ map (on_id row.id (retried due class status)) w.db.queue
      → Progress start till w w'
  postponed i due class status o l e d =
      rw (e, d)
        (
          u,
          inr (
              load-map-lt (weight start till w) (weight start till w)
                (on_id row.id (retried due class status)) i 5_000 row w.db.queue
                (λ q n. ground (arith, n)) o m (rw (==_refl row.id) ground (arith, t, l))),
        )

  module _ (e : Entry) (n : sendable e.state ≡ false)
      (es : w'.reg.entries ≡ put_entry row.reader_id e w.reg.entries) where
    shut_le : (q : Row) → due_in till w' q ≡ true → due_in till w q ≡ true
    unfolding sendable_readers
    shut_le q h =
        ground (arith, rw es at h, put_entry_shrinks row.reader_id e w.reg.entries u n q.reader_id)

    shut_row : due_in till w' row ≡ false
    unfolding sendable_readers
    shut_row = rw es ground (
      arith,
      put_entry_shrinks row.reader_id e w.reg.entries u n row.reader_id,
      str_eq_refl row.reader_id,
    )

    lighter : (q : Row) → weight start till w' q ≤ weight start till w q
    lighter q = elim (Bool-cases (due_in till w' q)) [
      | inl h ↦ rw (h, shut_le q h) (omega arith)
      | inr h ↦ rw h (omega arith)
    ]

    keys : KeysUnique w'.reg.entries
    keys = rw es (KeysUnique-put_entry row.reader_id e w.reg.entries u)

    shut : (i : ℕ) → Ordered i w.db.queue → w'.db.queue ≡ w.db.queue → Progress start till w w'
    shut i o d = (
      keys,
      inr (
          rw d (
            subst (λ x. load (weight start till w') x + 5_000 ≤ work start till w)
              (map-id w.db.queue)
              (load-map-lt (weight start till w) (weight start till w') (λ q. q) i 5_000 row
                w.db.queue (λ q x. lighter q) o m (rw shut_row (omega (arith, heavy)))))),
    )

    shut_removed : w'.db.queue ≡ without_id row.id w.db.queue → Progress start till w w'
    unfolding without_id
    shut_removed d = (
      keys,
      inr (
          rw d (
            load-select-lt (weight start till w) (weight start till w') (λ r. not (r.id == row.id))
              lighter 5_000 row w.db.queue m (ground arith) heavy)),
    )

module _ (s : Sender) (f : Faults) (start till now : ℕ) (row : Row) (w : World) (i : ℕ)
    (o : Ordered i w.db.queue) (from : millis start ≤ millis now) (to : millis now ≤ millis till)
    (q : f.queue ≡ false) (u : KeysUnique w.reg.entries) (m : Memᴰ row w.db.queue)
    (t : due_in now w row ≡ true) where
  settle-Progress :
      (res : HttpResult) (class : String) (v : World) (d : DeliveryDecision)
      → v.reg ≡ w.reg
      → v.db ≡ w.db
      → Progress start till w (settle s f now (to_item row) res d class v)
  unfolding settle complete_row retry_later mark_attempt_keep_due set persist set_gate
  settle-Progress res class v complete e d =
      removed start till now row w (settle s f now (to_item row) res complete class v) from to u m t
        (rw (q, e) refl) (rw (q, d) refl)
  settle-Progress res class v drop e d =
      removed start till now row w (settle s f now (to_item row) res drop class v) from to u m t
        (rw (q, e) refl) (rw (q, d) refl)
  settle-Progress res class v retry e d =
      postponed start till now row w (settle s f now (to_item row) res retry class v) from to u m t
        i (millis (now + backoff_delay (row.attempt_count + 1))) class res.status o
        (later now (row.attempt_count + 1)) (rw (q, e) refl) (rw (q, d) refl)
  settle-Progress res class v suspend_reader e d =
      shut_removed start till now row w (settle s f now (to_item row) res suspend_reader class v)
        from to u m t
        (changed_entry suspended_token "404 — 토큰 회수/무효" "" none
          (entry_or_zero (get_entry row.reader_id w.reg.entries)))
        refl (rw (q, e) refl) (rw (q, d) ground arith)
  settle-Progress res class v halt_global e d = (rw (q, e) u, inl refl)

  pub deliver-Progress : Progress start till w (deliver s f now (to_item row) w)
  unfolding deliver deliver_with complete_row set persist set_gate
  deliver-Progress = elim (Bool-cases (is_expired s.max_age now (to_item row))) [
    | inl x ↦
        removed start till now row w (deliver s f now (to_item row) w) from to u m t
          (rw (x, q) refl) (rw (x, q) refl)
    | inr x ↦ elim (Option-cases (s.creds row.reader_id)) [
      | inl e ↦
          shut start till now row w (deliver s f now (to_item row) w) from to u m t
            (changed_entry suspended_config "reader 가 설정에 없음" "" none
              (entry_or_zero (get_entry row.reader_id w.reg.entries)))
            refl (rw (x, e, deliver_with) refl) i o (rw (x, e, deliver_with) ground arith)
      | inr (token, e) ↦
          rw (x, e, deliver_with)
            (settle-Progress (s.answer (post_of token row)) _ _
              (classify (s.answer (post_of token row))).0 refl refl)
    ]
  ]
