-- ===== src/Store/Invariant.antt =====
-- The tables are well-formed: identifiers ascend, and reads of one tag are the debounce interval
-- apart. The operations on rows and `Admit` keep it; the modules below add the others.
pub mod Cleanup
pub mod Reach
use mathlib.Core.List.{Memᴰ}
use rfid_middleware_idro900e.Prelude.{
  ℕ, suc, ◌+◌, ◌-◌, ◌≤◌, ◌<◌, ◌≡◌, ◌↔◌, ◌⊎◌, inl, inr, refl, String, Bool, true, false, not, List,
  [], ◌∷◌, ◌++◌, map, Option, none, some, arith, str_eq, if◌then◌else◌, Bytes, select, any, All,
  All-append, All-select, All-map, All-weaken, Bool-cases, ltb, leb, ◌==◌,
}
use rfid_middleware_idro900e.Domain.{GateState, GateMeta}
use rfid_middleware_idro900e.Store.Transaction.{Result, ok, failed}
use rfid_middleware_idro900e.Store.{
  Row, Seen, Db, empty, is_of, last_accepted, upsert_seen, debounced, elapsed_since, new_row, Call,
  admit,
}
use rfid_middleware_idro900e.Store.Admit.{
  is_of_iff, last_accepted-upsert_seen, after_admit, admit_outcome,
}
use rfid_middleware_idro900e.Store.Queue.{
  without_id, complete, on_id, retried, marked, retry_later, mark_attempt_keep_due, is_before,
  expire_before, has_pending, is_stale, cleanup_debounce, of_reader, discard_pending,
}

-- Two rows of one tag at one reader, the first queued first, are the debounce interval apart.
abbrev pub Apart : ℕ → Row → Row → Type 0
Apart d a b =
    is_of a.reader_id a.epc b.reader_id b.epc ≡ true → a.checked_at_ms + d ≤ b.checked_at_ms

abbrev pub Ordered : ℕ → List Row → Type 0
Ordered d [] = Unit
Ordered d (a ∷ rs) = All (λ b. (a.id < b.id) × Apart d a b) rs × Ordered d rs

-- The debounce state remembers an instant of the row's key that is not before the row's.
abbrev pub Covered : List Seen → Row → Type 0
Covered seen a =
    (last : ℕ) × (last_accepted a.reader_id a.epc seen ≡ some last) × (a.checked_at_ms ≤ last)

-- The primary key of the debounce state.
abbrev pub OtherKey : Seen → Seen → Type 0
OtherKey s t = is_of s.reader_id s.epc t.reader_id t.epc ≡ false

abbrev pub KeysUnique : List Seen → Type 0
KeysUnique [] = Unit
KeysUnique (s ∷ rest) = All (OtherKey s) rest × KeysUnique rest

pub record IsWf (d : ℕ) (db : Db) : Type 0 where
  pub ordered : Ordered d db.queue
  pub below : All (λ a. a.id < db.next_id) db.queue
  pub covered : All (Covered db.seen) db.queue
  pub unique : KeysUnique db.seen

Ordered-select : (d : ℕ) (p : Row → Bool) (rs : List Row) → Ordered d rs → Ordered d (select p rs)
Ordered-select d p [] h = tt
Ordered-select d p (a ∷ rs) h = elim (Bool-cases (p a)) [
  | inl t ↦ rw t (All-select _ p rs h.0, Ordered-select d p rs h.1)
  | inr t ↦ rw t (Ordered-select d p rs h.1)
]

-- Rows taken out of the queue.
pub select-IsWf :
    (d : ℕ) (p : Row → Bool) (db : Db)
    → IsWf d db
    → IsWf d (record db { queue = select p db.queue })
select-IsWf d p db w = record {
  ordered = Ordered-select d p db.queue w.ordered;
  below = All-select _ p db.queue w.below;
  covered = All-select _ p db.queue w.covered;
  unique = w.unique;
}

-- What no update of a row changes.
abbrev pub KeepsRead : (Row → Row) → Type 0
KeepsRead f =
    (a : Row)
    → ((f a).id ≡ a.id)
      × ((f a).reader_id ≡ a.reader_id)
      × ((f a).epc ≡ a.epc)
      × ((f a).checked_at ≡ a.checked_at)
      × ((f a).checked_at_ms ≡ a.checked_at_ms)

abbrev pub Before : ℕ → Row → Row → Type 0
Before d a b = (a.id < b.id) × Apart d a b

module _ (d : ℕ) (f : Row → Row) (k : KeepsRead f) where
  Before-map : (a b : Row) → Before d a b → Before d (f a) (f b)
  Before-map a b h =
      let (i, r, e, _, c) = k a in
      let (i', r', e', _, c') = k b in rw (i, r, e, c, i', r', e', c') h

  All-Before : (a : Row) (rs : List Row) → All (Before d a) rs → All (Before d (f a)) (map f rs)
  All-Before a [] h = tt
  All-Before a (b ∷ rs) h = (Before-map a b h.0, All-Before a rs h.1)

  Ordered-map : (rs : List Row) → Ordered d rs → Ordered d (map f rs)
  Ordered-map [] h = tt
  Ordered-map (a ∷ rs) h = (All-Before a rs h.0, Ordered-map rs h.1)

  pub map-IsWf : (db : Db) → IsWf d db → IsWf d (record db { queue = map f db.queue })
  map-IsWf db w = record {
    ordered = Ordered-map db.queue w.ordered;
    below = All-map _ f db.queue (λ a h. let (i, _, _, _, _) = k a in rw i h) w.below;
    covered = All-map _ f db.queue covers w.covered;
    unique = w.unique;
  }
    where
      covers : (a : Row) → Covered db.seen a → Covered db.seen (f a)
      covers a h = let (_, r, e, _, c) = k a in rw (r, e, c) h

Ordered-concat :
    (d : ℕ) (rs : List Row) (b : Row)
    → Ordered d rs
    → All (λ a. Before d a b) rs
    → Ordered d (rs ++ b ∷ [])
Ordered-concat d [] b h k = (tt, tt)
Ordered-concat d (a ∷ rs) b h k =
    (All-append _ rs (b ∷ []) h.0 (k.0, tt), Ordered-concat d rs b h.1 k.1)

module _ (d : ℕ) (pos : 0 < d) (r : String) (e : Bytes) (received : ℕ) (seen : List Seen) where
  -- A read that is not debounced comes late enough after each row of its key.
  fresh_Apart :
      (a b : Row)
      → b.reader_id ≡ r
      → b.epc ≡ e
      → b.checked_at_ms ≡ received
      → debounced (last_accepted r e seen) received d ≡ false
      → Covered seen a
      → Apart d a b
  unfolding debounced elapsed_since
  fresh_Apart a b rb eb cb f (last, l, c) same =
      ground (arith, is_of_iff a.reader_id a.epc b.reader_id b.epc, f, l, c, same, rb, eb, cb)

  Covered-upsert :
      (a : Row)
      → debounced (last_accepted r e seen) received d ≡ false
      → Covered seen a
      → Covered (upsert_seen r e received seen) a
  unfolding debounced elapsed_since
  Covered-upsert a f (last, l, c) = elim (Bool-cases (is_of r e a.reader_id a.epc)) [
    | inl t ↦ (
      received,
      ground (arith, last_accepted-upsert_seen r e a.reader_id a.epc received seen, t),
      ground (arith, is_of_iff r e a.reader_id a.epc, f, l, c, t),
    )
    | inr t ↦ (
      last,
      ground (arith, last_accepted-upsert_seen r e a.reader_id a.epc received seen, t, l),
      c,
    )
  ]

OtherKey-upsert_seen :
    (s : Seen) (r : String) (e : Bytes) (ms : ℕ) (seen : List Seen)
    → is_of s.reader_id s.epc r e ≡ false
    → All (OtherKey s) seen
    → All (OtherKey s) (upsert_seen r e ms seen)
unfolding upsert_seen
OtherKey-upsert_seen s r e ms [] n h = (n, tt)
OtherKey-upsert_seen s r e ms (t ∷ seen) n h =
    ground (arith, h, OtherKey-upsert_seen s r e ms seen n h.1)

KeysUnique-upsert_seen :
    (r : String) (e : Bytes) (ms : ℕ) (seen : List Seen)
    → KeysUnique seen
    → KeysUnique (upsert_seen r e ms seen)
unfolding upsert_seen
KeysUnique-upsert_seen r e ms [] h = (tt, tt)
KeysUnique-upsert_seen r e ms (s ∷ seen) h = elim (Bool-cases (is_of s.reader_id s.epc r e)) [
  | inl t ↦ rw t h
  | inr t ↦ rw t (OtherKey-upsert_seen s r e ms seen t h.0, KeysUnique-upsert_seen r e ms seen h.1)
]

module _ (d : ℕ) (pos : 0 < d) where
  after_admit-IsWf :
      (r : String) (e : Bytes) (received : ℕ) (checked_at : String) (db : Db)
      → debounced (last_accepted r e db.seen) received d ≡ false
      → IsWf d db
      → IsWf d (after_admit r e received checked_at d db)
  after_admit-IsWf r e received checked_at db f w = record {
    ordered = Ordered-concat d db.queue new w.ordered (before db.queue w.below w.covered);
    below =
        All-append _ db.queue (new ∷ []) (All-weaken _ _ db.queue (λ a h. omega arith) w.below)
          (omega arith, tt);
    covered =
        All-append _ db.queue (new ∷ [])
          (All-weaken _ _ db.queue (λ a. Covered-upsert d pos r e received db.seen a f) w.covered)
          (
            (
              received,
              ground (arith, last_accepted-upsert_seen r e r e received db.seen, is_of_iff r e r e),
              omega arith,
            ),
            tt,
          );
    unique = KeysUnique-upsert_seen r e received db.seen w.unique;
  }
    where
      new : Row
      new = new_row db.next_id r e received checked_at

      before :
          (rs : List Row)
          → All (λ a. a.id < db.next_id) rs
          → All (Covered db.seen) rs
          → All (λ a. Before d a new) rs
      before [] b c = tt
      before (a ∷ rs) b c = (
        (b.0, fresh_Apart d pos r e received db.seen a new refl refl refl f c.0),
        before rs b.1 c.1,
      )

  pub admit-IsWf :
      (fails : Call → Bool) (r : String) (e : Bytes) (received : ℕ) (checked_at : String) (db : Db)
      → IsWf d db
      → IsWf d (admit fails r e received checked_at d db).1
  admit-IsWf fails r e received checked_at db w =
      elim (admit_outcome r e received checked_at d db fails) [
        | inl h ↦ rw h w
        | inr (inl (_, h)) ↦ rw h w
        | inr (inr (f, h)) ↦ rw h (after_admit-IsWf r e received checked_at db f w)
      ]
