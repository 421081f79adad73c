-- ===== src/Store/Invariant/Cleanup.antt =====
-- `CleanupDebounce` forgets no instant that a pending row or a later read depends on.
use rfid_middleware_idro900e.Prelude.{
  ℕ, ◌+◌, ◌≤◌, ◌≡◌, ◌∙◌, sym, ap, refl, String, Bool, true, false, not, List, [], ◌∷◌, none, some,
  arith, Bytes, select, any, All, All-select, Bool-cases, Memᴰ, any_of_mem, All-of_mem, mem_of_All,
  inl, inr,
}
use rfid_middleware_idro900e.Store.{Row, Seen, Db, is_of, last_accepted, debounced}
use rfid_middleware_idro900e.Store.Admit.{is_of_iff}
use rfid_middleware_idro900e.Store.Queue.{has_pending, is_stale, cleanup_debounce}
use rfid_middleware_idro900e.Store.Invariant.{Covered, OtherKey, KeysUnique, IsWf}

-- A key with a pending row keeps its instant.
pub last_accepted-cleanup :
    (before : ℕ) (queue : List Row) (r : String) (e : Bytes) (seen : List Seen)
    → any (λ q. is_of q.reader_id q.epc r e) queue ≡ true
    → last_accepted r e (select (λ s. not (is_stale before queue s)) seen) ≡ last_accepted r e seen
unfolding last_accepted
last_accepted-cleanup before queue r e [] h = refl
last_accepted-cleanup before queue r e (s ∷ seen) h =
    elim (Bool-cases (is_of s.reader_id s.epc r e)) [
      | inl t ↦
          let (a, b) = (is_of_iff s.reader_id s.epc r e).0 t in
          let pending : has_pending queue s ≡ true = rw (a, b) h in ground (arith, t, pending)
      | inr t ↦ ground (arith, t, last_accepted-cleanup before queue r e seen h)
    ]

cleanup-Covered :
    (before : ℕ) (queue : List Row) (seen : List Seen) (a : Row)
    → Memᴰ a queue
    → Covered seen a
    → Covered (select (λ s. not (is_stale before queue s)) seen) a
cleanup-Covered before queue seen a m (last, l, c) =
    let pending =
      any_of_mem (λ (q : Row). is_of q.reader_id q.epc a.reader_id a.epc) a queue
        ((is_of_iff a.reader_id a.epc a.reader_id a.epc).1 (refl, refl)) m in
    (last, rw (last_accepted-cleanup before queue a.reader_id a.epc seen pending) l, c)

KeysUnique-select :
    (p : Seen → Bool) (seen : List Seen) → KeysUnique seen → KeysUnique (select p seen)
KeysUnique-select p [] h = tt
KeysUnique-select p (s ∷ seen) h = elim (Bool-cases (p s)) [
  | inl t ↦ rw t (All-select _ p seen h.0, KeysUnique-select p seen h.1)
  | inr t ↦ rw t (KeysUnique-select p seen h.1)
]

pub cleanup-IsWf :
    (d : ℕ) (fails : Bool) (before : ℕ) (db : Db)
    → IsWf d db
    → IsWf d (cleanup_debounce fails before db).1
unfolding cleanup_debounce
cleanup-IsWf d true before db w = w
cleanup-IsWf d false before db w = record {
  ordered = w.ordered;
  below = w.below;
  covered =
      All-of_mem _ db.queue
        (λ a m. cleanup-Covered before db.queue db.seen a m (mem_of_All _ db.queue a w.covered m));
  unique = KeysUnique-select _ db.seen w.unique;
}

-- A read that comes at least the debounce interval after the cut-off is not debounced by an instant
-- that the cut-off lets go.
stale_is_passed :
    (d before received : ℕ) (s : Seen) (queue : List Row)
    → before + d ≤ received
    → is_stale before queue s ≡ true
    → debounced (some s.last_accepted_ms) received d ≡ false
unfolding debounced
stale_is_passed d before received s queue h t = ground arith

none_is_passed : (received d : ℕ) → debounced none received d ≡ false
unfolding debounced
none_is_passed received d = refl

last_accepted-other :
    (s : Seen) (r : String) (e : Bytes) (seen : List Seen)
    → is_of s.reader_id s.epc r e ≡ true
    → All (OtherKey s) seen
    → last_accepted r e seen ≡ none
unfolding last_accepted
last_accepted-other s r e [] h k = refl
last_accepted-other s r e (t ∷ seen) h k = ground (
  arith,
  h,
  k,
  is_of_iff s.reader_id s.epc r e,
  is_of_iff t.reader_id t.epc r e,
  is_of_iff s.reader_id s.epc t.reader_id t.epc,
  last_accepted-other s r e seen h k.1,
)

keeps_decision :
    (d before received : ℕ) (queue : List Row) (r : String) (e : Bytes) (seen : List Seen)
    → before + d ≤ received
    → KeysUnique seen
    → debounced (last_accepted r e (select (λ s. not (is_stale before queue s)) seen)) received d
      ≡ debounced (last_accepted r e seen) received d
unfolding last_accepted
keeps_decision d before received queue r e [] h u = refl
keeps_decision d before received queue r e (s ∷ seen) h u =
    elim (Bool-cases (is_stale before queue s)) [
      | inl t ↦ elim (Bool-cases (is_of s.reader_id s.epc r e)) [
        | inl o ↦
            rw (t, o)
              (ap (λ l. debounced l received d)
                  (last_accepted-other s r e (select (λ x. not (is_stale before queue x)) seen) o
                    (All-select _ _ seen u.0))
                ∙ none_is_passed received d
                ∙ sym (stale_is_passed d before received s queue h t))
        | inr o ↦ rw (t, o) (keeps_decision d before received queue r e seen h u.1)
      ]
      | inr t ↦ elim (Bool-cases (is_of s.reader_id s.epc r e)) [
        | inl o ↦ rw (t, o) refl
        | inr o ↦ rw (t, o) (keeps_decision d before received queue r e seen h u.1)
      ]
    ]

-- The clean-up changes no later decision: a read that comes the debounce interval or more after the
-- cut-off is debounced with the cleaned state exactly where it is with the full one.
pub cleanup_keeps_decisions :
    (d : ℕ) (fails : Bool) (before received : ℕ) (r : String) (e : Bytes) (db : Db)
    → IsWf d db
    → before + d ≤ received
    → debounced (last_accepted r e (cleanup_debounce fails before db).1.seen) received d
      ≡ debounced (last_accepted r e db.seen) received d
unfolding cleanup_debounce
cleanup_keeps_decisions d true before received r e db w h = refl
cleanup_keeps_decisions d false before received r e db w h =
    keeps_decision d before received db.queue r e db.seen h w.unique
