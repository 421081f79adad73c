-- ===== src/Protocol/Commands/Safe.antt =====
-- What every command that the encoders make looks like to the reader.
use rfid_middleware_idro900e.Prelude.{
  ℕ, zero, suc, ◌+◌, ◌/◌, ◌%◌, ◌≤◌, ◌||◌, [], ◌∷◌, ◌++◌, Option, none, some, ltb, ◌≡◌, ◌⊎◌, refl,
  arith, inl, inr, Bool-cases, Bytes, All, All-append,
}
use rfid_middleware_idro900e.Prelude.Int.{ℤ, pos, negsuc, ltb_ℤ, eq_ℤ, eq_ℤ_iff, ◌≤ℤ◌}
use rfid_middleware_idro900e.Protocol.Commands.{
  decimal, show_int, set_command, cmd_set_power, cmd_set_buzzer,
}

abbrev IsPlain : ℕ → Type 0
IsPlain c = (32 ≤ c) × (c ≤ 126)

-- Printable ASCII, then one CR, with no LF: what the reader takes for a command.
abbrev pub IsCommand : Bytes → Type 0
IsCommand s = (front : Bytes) × (s ≡ front ++ 13 ∷ []) × All IsPlain front

decimal-IsPlain : (fuel n : ℕ) → All IsPlain (decimal fuel n)
unfolding decimal
decimal-IsPlain zero n = tt
decimal-IsPlain (suc fuel) n = elim (Bool-cases (ltb n 10)) [
  | inl t ↦ rw t (ground (arith, t), tt)
  | inr t ↦
      rw t (
        All-append IsPlain _ ((48 + n % 10) ∷ []) (decimal-IsPlain fuel (n / 10)) (omega arith, tt))
]

show_int-IsPlain : (v : ℤ) → All IsPlain (show_int v)
show_int-IsPlain (pos n) = decimal-IsPlain 19 n
show_int-IsPlain (negsuc n) = ((omega arith, omega arith), decimal-IsPlain 19 (suc n))

-- A command for the values that satisfy `P`, and none for the others.
abbrev pub SentFor : Option Bytes → Type 0 → Type 0
SentFor o P = P × ((s : Bytes) × (o ≡ some s) × IsCommand s) ⊎ (¬ P) × (o ≡ none)

set_command-IsCommand : (t : ℕ) (v : ℤ) → IsPlain t → IsCommand (set_command t v)
set_command-IsCommand t v h =
    let plain : All IsPlain (b'>' ∷ b'x' ∷ b' ' ∷ t ∷ b' ' ∷ []) = (
      (omega arith, omega arith),
      (
        (omega arith, omega arith),
        ((omega arith, omega arith), (h, ((omega arith, omega arith), tt))),
      ),
    ) in
    (
      b'>' ∷ b'x' ∷ b' ' ∷ t ∷ b' ' ∷ show_int v,
      refl,
      All-append IsPlain (b'>' ∷ b'x' ∷ b' ' ∷ t ∷ b' ' ∷ []) (show_int v) plain
          (show_int-IsPlain v),
    )

-- The commands for the power and the buzzer are made exactly for the values in their ranges, and what is sent is
-- printable text that ends in CR alone.
pub set_commands_safe :
    (v : ℤ)
    → SentFor (cmd_set_power v) ((pos 50 ≤ℤ v) × (v ≤ℤ pos 300))
      × SentFor (cmd_set_buzzer v) ((v ≡ pos 0) ⊎ (v ≡ pos 1))
unfolding cmd_set_power cmd_set_buzzer
set_commands_safe v = (
  elim (Bool-cases (ltb_ℤ v (pos 50) || ltb_ℤ (pos 300) v)) [
    | inl t ↦ inr (λ h. ground (arith, t, h), rw t refl)
    | inr t ↦ inl (
      (ground (arith, t), ground (arith, t)),
      (set_command b'p' v, rw t refl, set_command-IsCommand b'p' v (omega arith, omega arith)),
    )
  ],
  elim (Bool-cases (eq_ℤ v (pos 0) || eq_ℤ v (pos 1))) [
    | inl t ↦ inl (
      ground (arith, t, eq_ℤ_iff v (pos 0), eq_ℤ_iff v (pos 1)),
      (set_command b'b' v, rw t refl, set_command-IsCommand b'b' v (omega arith, omega arith)),
    )
    | inr t ↦ inr (λ h. ground (arith, t, h, eq_ℤ_iff v (pos 0), eq_ℤ_iff v (pos 1)), rw t refl)
  ],
)
