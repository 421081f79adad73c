-- ===== src/Sender/Progress.antt =====
-- That the loop of `Run` comes to wait: internal/sender/sender.go.
use mathlib.Core.Path.{subst}
use rfid_middleware_idro900e.Prelude.{
  ℕ, ◌+◌, ◌≤◌, ◌<◌, false, Option, some, ◌≡◌, refl, arith, inl, inr, ◌-◌, ◌*◌, List, [], ◌∷◌,
  length, All,
}
use rfid_middleware_idro900e.Domain.{millis, halted}
use rfid_middleware_idro900e.Store.Queue.{to_item}
use rfid_middleware_idro900e.Gate.Entries.{KeysUnique}
use rfid_middleware_idro900e.Sender.{
  Sender, World, deliver, round, until_wait, Turn, at_turn, in_state, max_idle_wait, unless_waiting,
}
use rfid_middleware_idro900e.Sender.Delivery.{round_cases}
use rfid_middleware_idro900e.Store.Invariant.Reach.{Reach, Reach-IsWf}
use rfid_middleware_idro900e.Sender.Tables.{round-Reach}
use rfid_middleware_idro900e.Sender.Work.{
  due_count, work, work_le, millis_le, work_heavy, deliver-Progress,
}

halted_waits :
    (s : Sender) (ts : List Turn) (w : World)
    → 0 < length ts
    → w.reg.global ≡ halted
    → (until_wait ts s w).1 ≡ some max_idle_wait
unfolding until_wait round in_state unless_waiting
halted_waits s [] w p g = absurd (omega arith)
halted_waits s (t ∷ ts) w p g = rw (g, in_state) refl

-- A turn between two instants in which the writes to the queue do not fail.
abbrev pub IsWithin : ℕ → ℕ → Turn → Type 0
IsWithin start till t = (start ≤ t.now) × (t.now ≤ till) × (t.faults.queue ≡ false)

work_ends :
    (s : Sender) (i start till : ℕ) (ts : List Turn) (w : World)
    → 0 < i
    → Reach i w.db
    → KeysUnique w.reg.entries
    → All (IsWithin start till) ts
    → work start till w < 5_000 * length ts
    → (d : ℕ) × ((until_wait ts s w).1 ≡ some d)
unfolding until_wait unless_waiting
work_ends s i start till [] w p r u h l = absurd (omega arith)
work_ends s i start till (t ∷ ts) w p r u h l =
    let s' = at_turn s t in
    let (from, to, q) = h.0 in
    elim (round_cases s' t.faults t.now w) [
      | inl (d, e, _, _, _) ↦ (d, rw e refl)
      | inr (row, _, m, due, e) ↦ rw e (
          let (k, g) =
            deliver-Progress s' t.faults start till t.now row w i (Reach-IsWf i p r).ordered
              (millis_le start t.now from) (millis_le t.now till to) q u m due in
          elim g [
            | inl g ↦ (
              max_idle_wait,
              halted_waits s ts _
                  (omega (
                    arith,
                    l,
                    work_heavy start till t.now row w w (millis_le start t.now from)
                        (millis_le t.now till to) u m due,
                  ))
                  g,
            )
            | inr g ↦
                work_ends s i start till ts (deliver s' t.faults t.now (to_item row) w) p
                  (subst (λ (x : World × Option ℕ). Reach i x.0.db) e
                    (round-Reach s' t.faults t.now w i r))
                  k h.1 (omega (arith, g, l))
          ])
    ]

-- However the server answers each request, and whichever reads of the store and writes of gates fail: where the store's writes to the
-- queue do not fail, in tables that the store reaches, with one entry for each reader's gate and nothing else changing them meanwhile: the loop of `Run`
-- comes to wait within any number of rounds that is more than N * (1 + T / 5 s), where T is the time between two instants, each round reads the
-- clock between them, and N rows of readers that may send are due by the second.
pub until_wait_waits :
    (s : Sender) (i start till : ℕ) (ts : List Turn) (w : World)
    → 0 < i
    → Reach i w.db
    → KeysUnique w.reg.entries
    → All (IsWithin start till) ts
    → due_count till w * (5_000 + (millis till - millis start)) < 5_000 * length ts
    → (d : ℕ) × ((until_wait ts s w).1 ≡ some d)
until_wait_waits s i start till ts w p r u h l =
    work_ends s i start till ts w p r u h (omega (arith, l, work_le start till w))
