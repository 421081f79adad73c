-- ===== src/Store/Queue/Order.antt =====
-- The row that `NextDue` picks, and the instant that `NextDueAtMS` finds.
use mathlib.Core.List.{Memᴰ}
use mathlib.Core.List.Memᴰ.{not-nil, cases_cons}
use mathlib.Core.Path.{subst}
use rfid_middleware_idro900e.Prelude.{
  ℕ, ◌≤◌, ◌≡◌, refl, inl, inr, String, Bool, true, false, List, [], ◌∷◌, Option, none, some, arith,
  select, All, Bool-cases, Option-cases,
}
use rfid_middleware_idro900e.Store.Transaction.{ok}
use rfid_middleware_idro900e.Store.{Row, Db}
use rfid_middleware_idro900e.Store.Queue.{
  one_of, precedes, earlier, earliest, is_due, next_due, least_next, next_due_at,
}

precedes_refl : (a : Row) → precedes a a ≡ true
precedes_refl a = ground arith

precedes_trans : (a b c : Row) → precedes a b ≡ true → precedes b c ≡ true → precedes a c ≡ true
precedes_trans a b c h k = ground arith

precedes_total : (a b : Row) → precedes a b ≡ false → precedes b a ≡ true
precedes_total a b h = ground arith

-- `r` is a row of the list, and none of the list comes before it.
abbrev IsFirst : Row → List Row → Type 0
IsFirst r rs = Memᴰ r rs × All (λ q. precedes r q ≡ true) rs

All-precedes :
    (a b : Row) (rs : List Row)
    → precedes a b ≡ true
    → All (λ q. precedes b q ≡ true) rs
    → All (λ q. precedes a q ≡ true) rs
All-precedes a b [] h k = tt
All-precedes a b (q ∷ rs) h k = (precedes_trans a b q h k.0, All-precedes a b rs h k.1)

earlier_cases : (q t : Row) (rs : List Row) → IsFirst t rs → IsFirst (earlier q (some t)) (q ∷ rs)
earlier_cases q t rs (m, a) = elim (Bool-cases (precedes q t)) [
  | inl h ↦
      let e : q ≡ earlier q (some t) = rw h in
      subst (λ r. IsFirst r (q ∷ rs)) e (Memᴰ.head refl, (precedes_refl q, All-precedes q t rs h a))
  | inr h ↦
      let e : t ≡ earlier q (some t) = rw h in
      subst (λ r. IsFirst r (q ∷ rs)) e (Memᴰ.tail m, (precedes_total q t h, a))
]

earliest-IsFirst : (rs : List Row) {r : Row} → earliest rs ≡ some r → IsFirst r rs
unfolding earliest
earliest-IsFirst [] h = cc
earliest-IsFirst (q ∷ []) {r} h =
    let e : q ≡ r = cc h in
    subst (λ r. IsFirst r (q ∷ [])) e (Memᴰ.head refl, (precedes_refl q, tt))
earliest-IsFirst (q ∷ x ∷ rs) {r} h =
    let e : earlier q (earliest (x ∷ rs)) ≡ r = cc h in
    subst (λ r. IsFirst r (q ∷ x ∷ rs)) e
      (earlier_cases q _ (x ∷ rs) (earliest-IsFirst (x ∷ rs) refl))

earliest-eq-none : (rs : List Row) → earliest rs ≡ none → rs ≡ []
unfolding earliest
earliest-eq-none [] h = refl
earliest-eq-none (q ∷ rs) h = cc

mem-select :
    (p : Row → Bool) (r : Row) (rs : List Row) → Memᴰ r (select p rs) → Memᴰ r rs × (p r ≡ true)
mem-select p r [] m = absurd (not-nil m)
mem-select p r (q ∷ rs) m = elim (Bool-cases (p q)) [
  | inl h ↦ elim (cases_cons (rw h at m)) [
    | inl e ↦ (Memᴰ.head e, rw e h)
    | inr n ↦ let (k, t) = mem-select p r rs n in (Memᴰ.tail k, t)
  ]
  | inr h ↦ let (n, t) = mem-select p r rs (rw h at m) in (Memᴰ.tail n, t)
]

All-of_select :
    (P : Row → Type 0) (p : Row → Bool) (rs : List Row)
    → All P (select p rs)
    → All (λ q. p q ≡ true → P q) rs
All-of_select P p [] h = tt
All-of_select P p (q ∷ rs) h = elim (Bool-cases (p q)) [
  | inl t ↦ let (x, xs) = rw t at h in (λ _. x, All-of_select P p rs xs)
  | inr t ↦ (λ u. cc (t, u), All-of_select P p rs (rw t at h))
]

-- What `NextDue` returns: a due row of a sendable reader that comes before every other such row,
-- by its instant and then by its identifier; nothing only where there is no such row.
abbrev pub Picks : ℕ → List String → List Row → Option Row → Type 0
Picks now readers queue none = All (λ q. is_due now readers q ≡ false) queue
Picks now readers queue (some r) =
    Memᴰ r queue
    × (is_due now readers r ≡ true)
    × All (λ q. is_due now readers q ≡ true → precedes r q ≡ true) queue

select-eq-nil : (p : Row → Bool) (rs : List Row) → select p rs ≡ [] → All (λ q. p q ≡ false) rs
select-eq-nil p [] h = tt
select-eq-nil p (q ∷ rs) h = elim (Bool-cases (p q)) [
  | inl t ↦ cc (rw t at h)
  | inr t ↦ (t, select-eq-nil p rs (rw t at h))
]

Picks-earliest :
    (now : ℕ) (readers : List String) (queue : List Row) (o : Option Row)
    → earliest (select (is_due now readers) queue) ≡ o
    → Picks now readers queue o
Picks-earliest now readers queue none h =
    select-eq-nil (is_due now readers) queue (earliest-eq-none _ h)
Picks-earliest now readers queue (some r) h =
    let (m, a) = earliest-IsFirst (select (is_due now readers) queue) h in
    let (n, t) = mem-select (is_due now readers) r queue m in
    (n, t, All-of_select _ (is_due now readers) queue a)

none_due_of_none : (now : ℕ) (queue : List Row) → All (λ q. is_due now [] q ≡ false) queue
unfolding one_of
none_due_of_none now [] = tt
none_due_of_none now (q ∷ rs) = (ground arith, none_due_of_none now rs)

-- Whatever `NextDue` returns without an error is the first due row of the sendable readers, or
-- nothing where none of their rows is due.
pub next_due-Picks :
    (fails : Bool) (now : ℕ) (readers : List String) (db : Db) (o : Option Row)
    → next_due fails now readers db ≡ ok o
    → Picks now readers db.queue o
unfolding next_due
next_due-Picks fails now [] db o h =
    let e : none ≡ o = cc h in subst (Picks now [] db.queue) e (none_due_of_none now db.queue)
next_due-Picks fails now (x ∷ xs) db o h =
    Picks-earliest now (x ∷ xs) db.queue o (ground (arith, h))

-- `NextDueAtMS` finds an instant that no row of the readers precedes, and none only where they have
-- no row.
abbrev pub IsLeast : List String → List Row → Option ℕ → Type 0
IsLeast readers queue none = All (λ q. one_of readers q.reader_id ≡ false) queue
IsLeast readers queue (some m) =
    All (λ q. one_of readers q.reader_id ≡ true → m ≤ q.next_attempt_ms) queue

least_next-eq-none : (rs : List Row) → least_next rs ≡ none → rs ≡ []
unfolding least_next
least_next-eq-none [] h = refl
least_next-eq-none (q ∷ rs) h = ground (arith, h)

least_next-le :
    (rs : List Row) (n m : ℕ) → least_next rs ≡ some m → n ≤ m → All (λ q. n ≤ q.next_attempt_ms) rs
unfolding least_next
least_next-le [] n m h l = tt
least_next-le (q ∷ rs) n m h l = elim (Option-cases (least_next rs)) [
  | inl e ↦ (ground (arith, h, e), rw (least_next-eq-none rs e) tt)
  | inr (k, e) ↦ (ground (arith, h, e), least_next-le rs n k e (ground (arith, h, e)))
]

none_of_none : (queue : List Row) → All (λ q. one_of [] q.reader_id ≡ false) queue
unfolding one_of
none_of_none [] = tt
none_of_none (q ∷ rs) = (refl, none_of_none rs)

IsLeast-least_next :
    (readers : List String) (queue : List Row) (o : Option ℕ)
    → least_next (select (λ r. one_of readers r.reader_id) queue) ≡ o
    → IsLeast readers queue o
IsLeast-least_next readers queue none h =
    select-eq-nil (λ r. one_of readers r.reader_id) queue (least_next-eq-none _ h)
IsLeast-least_next readers queue (some m) h =
    All-of_select (λ q. m ≤ q.next_attempt_ms) (λ r. one_of readers r.reader_id) queue
      (least_next-le _ m m h (omega arith))

pub next_due_at-IsLeast :
    (fails : Bool) (readers : List String) (db : Db) (o : Option ℕ)
    → next_due_at fails readers db ≡ ok o
    → IsLeast readers db.queue o
unfolding next_due_at
next_due_at-IsLeast fails [] db o h =
    let e : none ≡ o = cc h in subst (IsLeast [] db.queue) e (none_of_none db.queue)
next_due_at-IsLeast fails (x ∷ xs) db o h =
    IsLeast-least_next (x ∷ xs) db.queue o (ground (arith, h))
