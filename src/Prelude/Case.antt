-- ===== src/Prelude/Case.antt =====
-- `strings.ToLower` on ASCII letters; other letters stay.
use Prim.Native.Nat.{ℕ, ◌+◌, ◌<◌}
use Prim.Native.Char.{Char, char, code, IsScalar}
use Prim.Native.String.{String}
use mathlib.Core.Logic.{dite}
use native.Mathlib.Omega.{arith}
use native.Mathlib.Decide.{dec_lt}

lowered-IsScalar : (n : ℕ) → 64 < n → n < 91 → IsScalar (n + 32)
lowered-IsScalar n h k = ground arith

unfoldable pub lower_char : Char → Char
unfolding lowered-IsScalar dec_lt
lower_char c =
    dite (dec_lt 64 (code c))
      (λ h.
        dite (dec_lt (code c) 91) (λ k. char (code c + 32) (lowered-IsScalar (code c) h k))
          (λ _. c))
      (λ _. c)

abbrev pub lower : String → String
lower String.[] = String.[]
lower (String.◌∷◌ c s) = String.◌∷◌ (lower_char c) (lower s)
