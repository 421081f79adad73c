-- ===== src/Gui/Mask/Hides.antt =====
-- What is left of a token in a masked line: internal/gui/mask.go.
use mathlib.Core.Path.{subst}
use rfid_middleware_idro900e.Prelude.{
  ℕ, zero, suc, ◌+◌, ◌≤◌, ◌<◌, Bool, true, false, [], ◌∷◌, ◌++◌, leb, Bytes, take, length, ◌≡◌, ◌⊎◌,
  refl, sym, ap, arith, inl, inr, Bool-cases, if◌then◌else◌,
}
use rfid_middleware_idro900e.Gui.Mask.{is_hex, hex_run, ellipsis, mask_from, mask_log_line}

-- Nowhere do sixty-four hexadecimal digits stand in a row.
abbrev pub HasNoToken : Bytes → Type 0
HasNoToken [] = Unit {0}
HasNoToken (c ∷ rest) = (hex_run (c ∷ rest) < 64) × HasNoToken rest

run_hex : (c : ℕ) (s : Bytes) → is_hex c ≡ true → hex_run (c ∷ s) ≡ 1 + hex_run s
unfolding hex_run
run_hex c s t = rw t refl

run_other : (c : ℕ) (s : Bytes) → is_hex c ≡ false → hex_run (c ∷ s) ≡ 0
unfolding hex_run
run_other c s t = rw t refl

abbrev masked : ℕ → Bytes → Bytes
masked c s = take 8 (c ∷ s) ++ (ellipsis ++ mask_from 63 s)

mask_cases :
    (c : ℕ) (s : Bytes)
    → (hex_run (c ∷ s) < 64) × (mask_from 0 (c ∷ s) ≡ c ∷ mask_from 0 s)
      ⊎ ((64 ≤ hex_run (c ∷ s)) × (mask_from 0 (c ∷ s) ≡ masked c s))
unfolding mask_from
mask_cases c s = by_test (leb 64 (hex_run (c ∷ s))) refl
  where
    by_test :
        (b : Bool)
        → leb 64 (hex_run (c ∷ s)) ≡ b
        → (hex_run (c ∷ s) < 64)
            × ((if b then masked c s else c ∷ mask_from 0 s) ≡ c ∷ mask_from 0 s)
          ⊎ ((64 ≤ hex_run (c ∷ s)) × ((if b then masked c s else c ∷ mask_from 0 s) ≡ masked c s))
    by_test true e = inr (ground (arith, e), refl)
    by_test false e = inl (ground (arith, e), refl)

-- A short run does not grow.
short_run : (s : Bytes) → hex_run s < 64 → hex_run (mask_from 0 s) ≤ hex_run s
unfolding mask_from
short_run [] h = omega arith
short_run (c ∷ s) h = elim (mask_cases c s) [
  | inl (_, e) ↦ elim (Bool-cases (is_hex c)) [
    | inl t ↦ omega (
      arith,
      ap hex_run e,
      run_hex c s t,
      run_hex c (mask_from 0 s) t,
      short_run s (omega (arith, run_hex c s t)),
    )
    | inr t ↦ omega (arith, ap hex_run e, run_other c (mask_from 0 s) t)
  ]
  | inr (k, _) ↦ absurd (omega arith)
]

-- What stands before the ellipsis ends there.
run_before : (xs rest : Bytes) → hex_run (xs ++ (ellipsis ++ rest)) ≤ length xs
unfolding hex_run
run_before [] rest = omega arith
run_before (x ∷ xs) rest = ground (arith, run_before xs rest)

before_ellipsis :
    (xs rest : Bytes) → length xs < 64 → HasNoToken rest → HasNoToken (xs ++ (ellipsis ++ rest))
unfolding hex_run
before_ellipsis [] rest h n = (omega arith, (omega arith, (omega arith, n)))
before_ellipsis (x ∷ xs) rest h n =
    (omega (arith, run_before (x ∷ xs) rest), before_ellipsis xs rest (omega arith) n)

length-take_8 : (s : Bytes) → length (take 8 s) < 64
length-take_8 s = omega (arith, at_most 8 s)
  where
    at_most : (n : ℕ) (xs : Bytes) → length (take n xs) ≤ n
    at_most zero xs = omega arith
    at_most (suc n) [] = omega arith
    at_most (suc n) (x ∷ xs) = omega (arith, at_most n xs)

from_no_token : (n : ℕ) (s : Bytes) → HasNoToken (mask_from n s)
unfolding mask_from
from_no_token n [] = tt
from_no_token (suc n) (c ∷ s) = from_no_token n s
from_no_token zero (c ∷ s) = elim (mask_cases c s) [
  | inl (h, e) ↦
      subst HasNoToken (sym e)
        (omega (arith, short_run (c ∷ s) h, ap hex_run e), from_no_token zero s)
  | inr (_, e) ↦
      subst HasNoToken (sym e)
        (before_ellipsis (take 8 (c ∷ s)) _ (length-take_8 (c ∷ s)) (from_no_token 63 s))
]

-- Whatever a line of the log holds: in what goes to the browser no sixty-four hexadecimal digits stand in a row.
pub mask_hides : (line : Bytes) → HasNoToken (mask_log_line line)
unfolding mask_log_line
mask_hides line = from_no_token 0 line
