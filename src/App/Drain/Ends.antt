-- ===== src/App/Drain/Ends.antt =====
-- How long the drain lasts: `drainWait` of internal/app/app.go.
use rfid_middleware_idro900e.Prelude.{
  ℕ, ◌+◌, ◌≤◌, List, [], ◌∷◌, ltb, ◌==◌, length, ◌≡◌, refl, arith, All, Bool-cases, inl, inr, ap,
  ◌∙◌, ◌⊎◌,
}
use rfid_middleware_idro900e.Gate.{sendable_readers}
use rfid_middleware_idro900e.Store.Transaction.{Result, ok, failed}
use rfid_middleware_idro900e.Store.Queue.{depth}
use rfid_middleware_idro900e.App.Drain.{
  Look, Drain, Round, over, again, is_halted, by_depth, drain_round, drain_wait,
}

-- No reader may send.
abbrev pub IsStuck : Look → Type 0
IsStuck l = sendable_readers l.reg ≡ []

-- A round in which no reader may send ends the drain, or counts.
abbrev Counts : Drain → Round → Type 0
Counts d r = (r ≡ over) ⊎ ((r ≡ again (record d { idle = d.idle + 1 })) × (d.idle + 1 ≤ 150))

by_depth-Counts : (l : Look) (d : Drain) (res : Result ℕ) → IsStuck l → Counts d (by_depth l d res)
unfolding by_depth
by_depth-Counts l d failed s = inl refl
by_depth-Counts l d (ok n) s = elim (Bool-cases (n == 0)) [
  | inl t ↦ rw t (inl refl)
  | inr t ↦ elim (Bool-cases (ltb 150 (d.idle + 1))) [
    | inl k ↦ rw (t, s) (rw k (inl refl))
    | inr k ↦ rw (t, s) (rw k (inr (refl, ground (arith, k))))
  ]
]

round-Counts : (l : Look) (d : Drain) → IsStuck l → Counts d (drain_round l d)
unfolding drain_round
round-Counts l d s = elim (Bool-cases l.cancelled) [
  | inl t ↦ rw t (inl refl)
  | inr t ↦ elim (Bool-cases (is_halted l.reg.global)) [
    | inl k ↦ rw (t, k) (inl refl)
    | inr k ↦ rw (t, k) (by_depth-Counts l d (depth l.depth_fails l.db) s)
  ]
]

drain_step :
    (l : Look) (ls : List Look) (d : Drain) (r : Round)
    → drain_round l d ≡ r
    → drain_wait (l ∷ ls) d ≡ (elim r [ over ↦ over | again d' ↦ drain_wait ls d' ])
unfolding drain_wait
drain_step l ls d r e =
    ap (λ (x : Round). elim x as (λ _. Round) [ over ↦ over | again d' ↦ drain_wait ls d' ]) e

-- While no reader may send, the drain ends within 151 rounds, which is half a minute, whatever else it finds.
pub drain_ends :
    (ls : List Look) (d : Drain)
    → All IsStuck ls
    → d.idle ≤ 150
    → 151 ≤ length ls + d.idle
    → drain_wait ls d ≡ over
drain_ends [] d a h n = absurd (omega arith)
drain_ends (l ∷ ls) d a h n = elim (round-Counts l d a.0) [
  | inl e ↦ drain_step l ls d over e
  | inr (e, k) ↦
      drain_step l ls d (again (record d { idle = d.idle + 1 })) e
      ∙ drain_ends ls (record d { idle = d.idle + 1 }) a.1 k (omega arith)
]
