-- ===== src/Sender/Waits.antt =====
-- How long the loop of `Run` waits, and what it does where the store does not take its answers.
use rfid_middleware_idro900e.Prelude.{
  ℕ, ◌+◌, ◌-◌, ◌*◌, ◌≤◌, ◌<◌, String, Bool, true, false, List, [], ◌∷◌, ◌++◌, Option, none, some,
  ◌≡◌, ◌⊎◌, refl, ap, ◌∙◌, arith, inl, inr, Bool-cases, Option-cases, select, All, All-weaken,
  length, length-append,
}
use rfid_middleware_idro900e.Domain.{millis, complete, retry, running, Secret}
use rfid_middleware_idro900e.Store.{Row, Db}
use rfid_middleware_idro900e.Store.Transaction.{Result, ok, failed}
use rfid_middleware_idro900e.Store.Queue.{
  is_due, one_of, next_due, next_due_at, least_next, to_item, retry_later, complete as complete_row,
}
use rfid_middleware_idro900e.Store.Queue.Order.{next_due_at-IsLeast, next_due-Picks}
use rfid_middleware_idro900e.Gate.{sendable_readers}
use rfid_middleware_idro900e.Congkong.Classify.{classify}
use rfid_middleware_idro900e.Sender.{
  Sender, World, settle, deliver_with, deliver, is_expired, round, until_wait, Turn, at_turn,
  in_state, picked, max_idle_wait, unless_waiting, idle_wait, capped_wait,
}
use rfid_middleware_idro900e.Sender.Delivery.{post_of}

-- The wait until a row is due, in nanoseconds.
abbrev pub time_to : ℕ → Row → ℕ
time_to now q = (q.next_attempt_ms - millis now) * 1_000_000

capped_wait-le : (r : Result (Option ℕ)) (now : ℕ) → capped_wait r now ≤ max_idle_wait
capped_wait-le failed now = omega arith
capped_wait-le (ok none) now = omega arith
capped_wait-le (ok (some due)) now = omega arith

capped_wait-rows :
    (now : ℕ) (readers : List String) (db : Db) (res : Result (Option ℕ))
    → next_due_at false readers db ≡ res
    → All (λ q. one_of readers q.reader_id ≡ true → capped_wait res now ≤ time_to now q) db.queue
unfolding next_due_at
capped_wait-rows now readers db failed h = absurd (ground (arith, h))
capped_wait-rows now readers db (ok none) h =
    All-weaken _ _ db.queue (λ q n t. cc (n, t)) (next_due_at-IsLeast false readers db none h)
capped_wait-rows now readers db (ok (some m)) h =
    All-weaken _ _ db.queue (λ q l t. omega (arith, l t))
      (next_due_at-IsLeast false readers db (some m) h)

-- The loop never waits longer than thirty seconds, nor, where the store finds that instant, past the instant at which
-- a row of a reader that may send is due.
pub idle_wait_bounds :
    (now : ℕ) (w : World) (fails : Bool)
    → (idle_wait fails now w ≤ max_idle_wait)
      × All
          (λ q.
            one_of (sendable_readers w.reg) q.reader_id ≡ true
            → idle_wait false now w ≤ time_to now q)
          w.db.queue
unfolding idle_wait
idle_wait_bounds now w fails =
    (capped_wait-le _ now, capped_wait-rows now (sendable_readers w.reg) w.db _ refl)

later_next :
    (now : ℕ) (readers : List String) (rs : List Row) (m : ℕ)
    → All (λ q. is_due now readers q ≡ false) rs
    → least_next (select (λ r. one_of readers r.reader_id) rs) ≡ some m
    → now < m
unfolding least_next
later_next now readers [] m h e = cc e
later_next now readers (q ∷ rs) m h e = elim (Bool-cases (one_of readers q.reader_id)) [
  | inl t ↦ elim (Option-cases (least_next (select (λ r. one_of readers r.reader_id) rs))) [
    | inl n ↦ ground (arith, t, n, h.0, e)
    | inr (k, n) ↦ ground (arith, t, n, h.0, e, later_next now readers rs k h.1 n)
  ]
  | inr t ↦ later_next now readers rs m h.1 (rw t at e)
]

capped_wait-pos :
    (now : ℕ) (readers : List String) (db : Db) (res : Result (Option ℕ))
    → All (λ q. is_due (millis now) readers q ≡ false) db.queue
    → next_due_at false readers db ≡ res
    → 0 < capped_wait res now
unfolding next_due_at
capped_wait-pos now readers db failed h e = omega arith
capped_wait-pos now readers db (ok none) h e = omega arith
capped_wait-pos now [] db (ok (some m)) h e = absurd (cc e)
capped_wait-pos now (r ∷ readers) db (ok (some m)) h e =
    omega (arith, later_next (millis now) (r ∷ readers) db.queue m h (ground (arith, e)))

-- Where no row is due, and the store can be read, the loop waits, for a time that is not zero.
pub idle_wait_pos :
    (now : ℕ) (w : World)
    → next_due false (millis now) (sendable_readers w.reg) w.db ≡ ok none
    → 0 < idle_wait false now w
unfolding idle_wait
idle_wait_pos now w h =
    capped_wait-pos now (sendable_readers w.reg) w.db _
      (next_due-Picks false (millis now) (sendable_readers w.reg) w.db none h) refl

module _ (s : Sender) (row : Row) (token : Secret) (c : s.creds row.reader_id ≡ some token) where
  -- A turn in which the store does not take the answer to the row's request, which is a success or one to try again.
  abbrev pub Loses : World → Turn → Type 0
  Loses w t =
      (t.faults.queue ≡ true)
      × (is_expired s.max_age t.now (to_item row) ≡ false)
      × (((classify (t.answer (post_of token row))).0 ≡ complete)
          ⊎ ((classify (t.answer (post_of token row))).0 ≡ retry))
      × (next_due t.faults.read (millis t.now) (sendable_readers w.reg) w.db ≡ ok (some row))

  stuck_round :
      (t : Turn) (w : World)
      → w.reg.global ≡ running
      → Loses w t
      → let r = round (at_turn s t) t.faults t.now w in
        (r.1 ≡ none)
        × (r.0.reg ≡ w.reg)
        × (r.0.db ≡ w.db)
        × (r.0.posts ≡ w.posts ++ post_of token row ∷ [])
  unfolding round in_state picked deliver deliver_with settle complete_row retry_later
  stuck_round t w g (q, x, d, h) = elim d [
    | inl k ↦
        rw (g, in_state, h, picked, x, c, deliver_with, k, settle, q)
          (refl, ap (λ x. record w.reg { global = x }) g, refl, refl)
    | inr k ↦
        rw (g, in_state, h, picked, x, c, deliver_with, k, settle, q)
          (refl, ap (λ x. record w.reg { global = x }) g, refl, refl)
  ]

  -- Where, in each of any number of rounds and whenever they come, the writes of the store to the queue fail, the same row with a token is the
  -- first due one and not too old, and the answer to its request is a success or one to try again: the loop does not come to wait in them, and
  -- each sends that request again, without a backoff.
  pub failed_writes_repeat :
      (ts : List Turn) (w : World)
      → w.reg.global ≡ running
      → All (Loses w) ts
      → ((until_wait ts s w).1 ≡ none)
        × (length (until_wait ts s w).0.posts ≡ length w.posts + length ts)
  unfolding until_wait unless_waiting
  failed_writes_repeat [] w g h = (refl, omega arith)
  failed_writes_repeat (t ∷ ts) w g h =
      let w' = (round (at_turn s t) t.faults t.now w).0 in
      let (e, r, b, p) = stuck_round t w g h.0 in
      let later : All (Loses w') ts =
        All-weaken (Loses w) (Loses w') ts (λ t l. (l.0, l.1, l.2, rw (r, b) l.3)) h.1 in
      let (a, l) = failed_writes_repeat ts w' (rw r g) later in
      let k : length w'.posts ≡ length w.posts + 1 =
        rw p (length-append w.posts (post_of token row ∷ [])) in
      rw e (a, l ∙ omega (arith, k))
