-- ===== src/Logging/Rotated.antt =====
-- Which file of the log is taken for the latest one.
use mathlib.Core.Path.{subst}
use mathlib.Core.List.Memᴰ.{not-nil}
use rfid_middleware_idro900e.Prelude.{
  ℕ, zero, suc, ◌+◌, ◌/◌, ◌%◌, ◌≤◌, true, false, List, [], ◌∷◌, ◌++◌, Option, none, some, ltb,
  Bytes, codes, ◌≡◌, ◌≢◌, ◌⊎◌, refl, sym, ap, ◌∙◌, arith, inl, inr, Memᴰ, Bool-cases,
}
use rfid_middleware_idro900e.Prelude.Int.{pos}
use rfid_middleware_idro900e.Protocol.Commands.{decimal, show_int}
use rfid_middleware_idro900e.Logging.{
  text_lt, suffix, first_file, rotated_file, later, latest_log_file,
}

text_lt-append : (p a b : Bytes) → text_lt (p ++ a) (p ++ b) ≡ text_lt a b
unfolding text_lt
text_lt-append [] a b = refl
text_lt-append (c ∷ p) a b = ground (arith, text_lt-append p a b)

text_lt_self : (a : Bytes) → text_lt a a ≡ false
unfolding text_lt
text_lt_self [] = refl
text_lt_self (c ∷ a) = ground (arith, text_lt_self a)

-- What stands between two texts is above the one or below the other.
text_lt_between : (a b c : Bytes) → text_lt a c ≡ true → (text_lt a b ≡ true) ⊎ (text_lt b c ≡ true)
unfolding text_lt
text_lt_between [] b [] h = cc h
text_lt_between (x ∷ a) b [] h = cc h
text_lt_between [] [] (z ∷ c) h = inr refl
text_lt_between [] (y ∷ b) (z ∷ c) h = inl refl
text_lt_between (x ∷ a) [] (z ∷ c) h = inr refl
text_lt_between (x ∷ a) (y ∷ b) (z ∷ c) h = ground (arith, h, text_lt_between a b c)

-- The digits of a number begin with a digit.
decimal_head :
    (fuel n : ℕ) → (d : ℕ) × (rest : Bytes) × (decimal (suc fuel) n ≡ d ∷ rest) × (d ≤ 57)
unfolding decimal
decimal_head zero n = elim (Bool-cases (ltb n 10)) [
  | inl t ↦ rw t (48 + n, [], refl, ground (arith, t))
  | inr t ↦ rw t (48 + n % 10, [], refl, omega arith)
]
decimal_head (suc fuel) n = elim (Bool-cases (ltb n 10)) [
  | inl t ↦ rw t (48 + n, [], refl, ground (arith, t))
  | inr t ↦
      let (d, rest, e, l) = decimal_head fuel (n / 10) in
      (d, rest ++ ((48 + n % 10) ∷ []), rw t (ap (λ (x : Bytes). x ++ ((48 + n % 10) ∷ [])) e), l)
]

rotated_first : (date : Bytes) (i : ℕ) → text_lt (rotated_file date i) (first_file date) ≡ true
unfolding text_lt
rotated_first date i =
    let (d, rest, e, l) = decimal_head 18 i in
    text_lt-append (codes "middleware-") (date ++ 46 ∷ (show_int (pos i) ++ suffix))
      (date ++ suffix)
    ∙ text_lt-append date (46 ∷ (show_int (pos i) ++ suffix)) suffix
    ∙ rw e (ground (arith, l))

text_lt_asym : (a b : Bytes) → text_lt a b ≡ true → text_lt b a ≡ false
unfolding text_lt
text_lt_asym [] [] h = refl
text_lt_asym [] (y ∷ b) h = refl
text_lt_asym (x ∷ a) [] h = cc h
text_lt_asym (x ∷ a) (y ∷ b) h = ground (arith, h, text_lt_asym a b)

later_own : (a : Bytes) (o : Option Bytes) → text_lt (later a o) a ≡ false
later_own a none = text_lt_self a
later_own a (some b) = elim (Bool-cases (text_lt a b)) [
  | inl t ↦ rw t (text_lt_asym a b t)
  | inr t ↦ rw t (text_lt_self a)
]

later_rest : (a b f : Bytes) → text_lt b f ≡ false → text_lt (later a (some b)) f ≡ false
later_rest a b f h = elim (Bool-cases (text_lt a b)) [
  | inl t ↦ rw t h
  | inr t ↦ rw t (ground (arith, h, t, text_lt_between a b f))
]

latest_some :
    (f : Bytes) (names : List Bytes) → Memᴰ f names → (b : Bytes) × (latest_log_file names ≡ some b)
unfolding latest_log_file
latest_some f [] m = absurd (not-nil m)
latest_some f (a ∷ names) m = (later a (latest_log_file names), refl)

-- No name is behind the latest one.
latest_last :
    (names : List Bytes) (n f : Bytes)
    → latest_log_file names ≡ some n
    → Memᴰ f names
    → text_lt n f ≡ false
unfolding latest_log_file
latest_last [] n f h m = absurd (not-nil m)
latest_last (a ∷ names) n f h (Memᴰ.head e) =
    subst (λ (x : Bytes). text_lt x f ≡ false) (own_some h)
      (subst (λ (x : Bytes). text_lt (later a (latest_log_file names)) x ≡ false) (sym e)
        (later_own a (latest_log_file names)))
  where
    own_some : some (later a (latest_log_file names)) ≡ some n → later a (latest_log_file names) ≡ n
    own_some q = cc q
latest_last (a ∷ names) n f h (Memᴰ.tail m) =
    let (b, e) = latest_some f names m in
    let q : later a (some b) ≡ n = cc (rw e at h) in
    subst (λ (x : Bytes). text_lt x f ≡ false) q (later_rest a b f (latest_last names b f e m))

-- While the first file of a day is there, no file that a rotation made that day is ever the latest one.
pub rotated_unseen :
    (date : Bytes) (i : ℕ) (names : List Bytes) (n : Bytes)
    → Memᴰ (first_file date) names
    → latest_log_file names ≡ some n
    → n ≢ rotated_file date i
rotated_unseen date i names n m h e = cc (
  latest_last names n (first_file date) h m,
  rotated_first date i,
  ap (λ (x : Bytes). text_lt x (first_file date)) e,
)
