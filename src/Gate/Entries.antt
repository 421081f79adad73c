-- ===== src/Gate/Entries.antt =====
-- The entries of the registry: what is written is read back, a key stands once, and the sendable
-- readers are those whose entry says so.
use mathlib.Core.Path.{subst}
use rfid_middleware_idro900e.Prelude.{
  String, Bool, true, false, [], ◌∷◌, Option, none, some, str_eq, str_eq_iff, ◌≡◌, refl, arith,
  if◌then◌else◌, All, Bool-cases, inl, inr,
}
use rfid_middleware_idro900e.Domain.{sendable}
use rfid_middleware_idro900e.Store.Queue.{one_of}
use rfid_middleware_idro900e.Gate.{Entry, Entries, get_entry, put_entry, sendable_of}

pub get_entry-put_entry :
    (r j : String) (e : Entry) (es : Entries)
    → get_entry j (put_entry r e es) ≡ (if str_eq r j then some e else get_entry j es)
unfolding get_entry put_entry
get_entry-put_entry r j e [] = refl
get_entry-put_entry r j e ((k, f) ∷ es) =
    ground (arith, str_eq_iff r j, str_eq_iff k r, str_eq_iff k j, get_entry-put_entry r j e es)

abbrev OtherKey : String → String × Entry → Type 0
OtherKey r x = str_eq r x.0 ≡ false

abbrev pub KeysUnique : Entries → Type 0
KeysUnique [] = Unit
KeysUnique ((k, e) ∷ rest) = All (OtherKey k) rest × KeysUnique rest

OtherKey-put_entry :
    (k r : String) (e : Entry) (es : Entries)
    → str_eq k r ≡ false
    → All (OtherKey k) es
    → All (OtherKey k) (put_entry r e es)
unfolding put_entry
OtherKey-put_entry k r e [] n h = (n, tt)
OtherKey-put_entry k r e ((j, f) ∷ es) n h = ground (arith, h, n, OtherKey-put_entry k r e es n h.1)

pub KeysUnique-put_entry :
    (r : String) (e : Entry) (es : Entries) → KeysUnique es → KeysUnique (put_entry r e es)
unfolding put_entry
KeysUnique-put_entry r e [] h = (tt, tt)
KeysUnique-put_entry r e ((k, f) ∷ es) h = elim (Bool-cases (str_eq k r)) [
  | inl t ↦ rw t (subst (λ x. All (OtherKey x) es × KeysUnique es) ((str_eq_iff k r).0 t) h)
  | inr t ↦ rw t (OtherKey-put_entry k r e es t h.0, KeysUnique-put_entry r e es h.1)
]

abbrev pub can_send : Option Entry → Bool
can_send none = false
can_send (some e) = sendable e.state

one_of-other :
    (k r : String) (es : Entries)
    → str_eq k r ≡ true
    → All (OtherKey k) es
    → one_of (sendable_of es) r ≡ false
unfolding sendable_of one_of
one_of-other k r [] t h = refl
one_of-other k r ((j, e) ∷ es) t h =
    ground (arith, t, h, str_eq_iff k r, str_eq_iff j r, str_eq_iff k j, one_of-other k r es t h.1)

-- A reader is among the sendable ones exactly where its entry is in a sendable state.
pub one_of-sendable_of :
    (es : Entries) (r : String)
    → KeysUnique es
    → one_of (sendable_of es) r ≡ can_send (get_entry r es)
unfolding sendable_of get_entry one_of
one_of-sendable_of [] r u = refl
one_of-sendable_of ((k, e) ∷ es) r u = elim (Bool-cases (str_eq k r)) [
  | inl t ↦ ground (arith, t, one_of-other k r es t u.0)
  | inr t ↦ ground (arith, t, one_of-sendable_of es r u.1)
]
