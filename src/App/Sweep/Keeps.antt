-- ===== src/App/Sweep/Keeps.antt =====
-- The tables before and after a round of the sweeper: internal/app/app.go.
use rfid_middleware_idro900e.Prelude.{
  ℕ, ◌+◌, ◌-◌, ◌≤◌, String, Bool, true, false, not, List, [], ◌∷◌, Option, leb, ◌≡◌, refl, ap, ◌∙◌,
  arith, inl, inr, Bool-cases, Bytes, select, if◌then◌else◌,
}
use rfid_middleware_idro900e.Prelude.{map}
use rfid_middleware_idro900e.Domain.{millis}
use rfid_middleware_idro900e.Store.{Db, Row, Seen, last_accepted, debounced}
use rfid_middleware_idro900e.Store.Queue.{
  expire_before, cleanup_debounce, is_before, is_empty, to_expired,
}
use rfid_middleware_idro900e.Store.Invariant.{IsWf}
use rfid_middleware_idro900e.Store.Invariant.Reach.{expire-IsWf}
use rfid_middleware_idro900e.Store.Invariant.Cleanup.{cleanup_keeps_decisions}
use rfid_middleware_idro900e.App.Sweep.{Sweeper, keep_for, sweep}

expire-seen :
    (fails : Bool) (cutoff : ℕ) (db : Db) → (expire_before fails cutoff db).1.seen ≡ db.seen
unfolding expire_before
expire-seen fails cutoff db = ground arith

cleanup-queue :
    (fails : Bool) (cutoff : ℕ) (db : Db) → (cleanup_debounce fails cutoff db).1.queue ≡ db.queue
unfolding cleanup_debounce
cleanup-queue fails cutoff db = ground arith

abbrev pub young : ℕ → Row → Bool
young cutoff r = leb cutoff r.checked_at_ms

all_young :
    (cutoff : ℕ) (rs : List Row)
    → is_empty (map to_expired (select (is_before cutoff) rs)) ≡ true
    → rs ≡ select (young cutoff) rs
all_young cutoff [] h = refl
all_young cutoff (r ∷ rs) h = elim (Bool-cases (is_before cutoff r)) [
  | inl t ↦ ground (arith, h, t)
  | inr t ↦ ground (arith, h, t, all_young cutoff rs)
]

select-young :
    (cutoff : ℕ) (rs : List Row)
    → select (λ r. not (is_before cutoff r)) rs ≡ select (young cutoff) rs
select-young cutoff [] = refl
select-young cutoff (r ∷ rs) = ground (arith, select-young cutoff rs)

expire-queue :
    (cutoff : ℕ) (db : Db)
    → (expire_before false cutoff db).1.queue ≡ select (young cutoff) db.queue
unfolding expire_before
expire-queue cutoff db =
    elim (Bool-cases (is_empty (map to_expired (select (is_before cutoff) db.queue)))) [
      | inl t ↦ rw t (all_young cutoff db.queue t)
      | inr t ↦ rw t (select-young cutoff db.queue)
    ]

swept-queue :
    (fails : Bool) (cutoff : ℕ) (db : Db)
    → (expire_before fails cutoff db).1.queue
      ≡ (if fails then db.queue else select (young cutoff) db.queue)
unfolding expire_before
swept-queue true cutoff db = refl
swept-queue false cutoff db = expire-queue cutoff db

-- The instants that the sweeper lets go of are old enough for any read that comes after it.
keep_covers :
    (debounce now received : ℕ)
    → debounce ≤ now
    → millis now ≤ received
    → millis (now - keep_for debounce) + millis debounce ≤ received
unfolding millis
keep_covers debounce now received h k = ground arith

-- In well-formed tables, whichever calls fail: a read that comes after a round of the sweeper is debounced exactly where it would be without it. Where the
-- expiry does not fail, the rows that are left are those not older than the limit, in their order.
pub sweep_keeps :
    (s : Sweeper) (parse : String → Option ℕ) (now received : ℕ) (r : String) (e : Bytes) (db : Db)
    → IsWf (millis s.debounce) db
    → s.debounce ≤ now
    → millis now ≤ received
    → (debounced (last_accepted r e (sweep s parse now db).0.seen) received (millis s.debounce)
        ≡ debounced (last_accepted r e db.seen) received (millis s.debounce))
      × ((sweep s parse now db).0.queue ≡ (
          if s.expire_fails then db.queue else select (young (millis (now - s.max_age))) db.queue))
unfolding sweep
sweep_keeps s parse now received r e db w h k =
    let d = millis s.debounce in
    let cutoff = millis (now - s.max_age) in
    let db' = (expire_before s.expire_fails cutoff db).1 in
    let before = millis (now - keep_for s.debounce) in
    (
      cleanup_keeps_decisions d s.cleanup_fails before received r e db'
            (expire-IsWf d s.expire_fails cutoff db w) (keep_covers s.debounce now received h k)
          ∙ ap (λ (x : List Seen). debounced (last_accepted r e x) received d)
              (expire-seen s.expire_fails cutoff db),
      cleanup-queue s.cleanup_fails before db' ∙ swept-queue s.expire_fails cutoff db,
    )
