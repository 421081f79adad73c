-- ===== src/Gui/CfgWrite/Undone.antt =====
-- What a rollback leaves in the file: `RollbackConfig` of internal/gui/cfgwrite.go.
use mathlib.Core.Path.{subst}
use rfid_middleware_idro900e.Prelude.{
  true, false, ◌||◌, Option, none, some, ◌≡◌, ◌⊎◌, refl, sym, arith, inl, inr, Bool-cases,
  Option-cases,
}
use rfid_middleware_idro900e.Gui.CfgWrite.{Codec, Files, Undo, put_back, roll_to, rollback_config}

-- The new text where the backup cannot be read or the file not opened; what was written where the writing breaks off; and
-- the old text where no call fails but, it may be, the removal of the backup.
abbrev pub Undone : {C : Type 0} → Undo C → C → C → Option C → Type 0
Undone {C} u raw out main =
    ((u.read ≡ true) ⊎ (u.opening ≡ true)) × (main ≡ some out)
    ⊎ ((rest : C) × (u.cut ≡ some rest) × (main ≡ some rest))
    ⊎ (u.read ≡ false) × (u.opening ≡ false) × (u.cut ≡ none) × (main ≡ some raw)

module _ {C : Type 0} (codec : Codec C) (u : Undo C) where
  put_back-Undone :
      (raw out : C) (fs : Files C)
      → fs.main ≡ some out
      → Undone u raw out (put_back codec u raw fs).0.main
  unfolding put_back
  put_back-Undone raw out fs m = elim (Bool-cases (u.read || u.opening)) [
    | inl t ↦ rw t (inl (either t, m))
    | inr t ↦ elim (Option-cases u.cut) [
      | inr (rest, c) ↦ rw (t, c) (inr (inl (rest, refl, refl)))
      | inl c ↦ elim (Bool-cases u.remove) [
        | inl k ↦ rw (t, c, k) (inr (inr (ground (arith, t), ground (arith, t), refl, refl)))
        | inr k ↦ rw (t, c, k) (inr (inr (ground (arith, t), ground (arith, t), refl, refl)))
      ]
    ]
  ]
    where
      either : (u.read || u.opening) ≡ true → (u.read ≡ true) ⊎ (u.opening ≡ true)
      either t = ground (arith, t)

  pub rollback_config-Undone :
      (raw out : C) (fs : Files C)
      → fs.bak ≡ some raw
      → fs.main ≡ some out
      → Undone u raw out (rollback_config codec u fs).0.main
  unfolding rollback_config roll_to
  rollback_config-Undone raw out fs b m =
      subst (λ (o : Option C). Undone u raw out (roll_to codec u o fs).0.main) (sym b)
        (put_back-Undone raw out fs m)
