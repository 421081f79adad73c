-- ===== src/Gui/Core/Modes.antt =====
-- The modes of the controller, in everything that can happen to it.
use rfid_middleware_idro900e.Prelude.{
  Bool, true, false, ◌&&◌, ◌≡◌, refl, arith, Bool-cases, inl, inr,
}
use rfid_middleware_idro900e.Gui.Core.{
  CoreController, new_controller, Before, start, stop, ended, shut_down, is_standby, is_crashed,
}

-- The core can end only while it runs.
pub data Step (c : CoreController) : CoreController → Type 0 where
  starts : (b : Before) → Step c (start b c).0
  stops : Step c (stop c)
  ends : (err : Bool) → c.running ≡ true → Step c (ended err c)
  shuts : Step c (shut_down c)

pub data Steps (c : CoreController) : CoreController → Type 0 where
  here : Steps c c
  next : {d e : CoreController} → Steps c d → Step d e → Steps c e

-- A core that runs on is meant to, and one that has crashed was meant to and is gone.
record IsSound (c : CoreController) : Type 0 where
  meant : c.running ≡ true → c.cancelled ≡ false → c.intent ≡ true
  wanted : c.crashed ≡ true → c.intent ≡ true
  gone : c.crashed ≡ true → c.running ≡ false

Step-IsSound : {c d : CoreController} → Step c d → IsSound c → IsSound d
unfolding start stop ended shut_down
Step-IsSound (starts b) s = grind (arith, s.meant, s.wanted, s.gone)
Step-IsSound stops s = grind (arith, s.meant, s.wanted, s.gone)
Step-IsSound (ends err r) s = grind (arith, s.meant, s.wanted, s.gone)
Step-IsSound shuts s = grind (arith, s.meant, s.wanted, s.gone)

Steps-IsSound : {c d : CoreController} → IsSound c → Steps c d → IsSound d
Steps-IsSound s here = s
Steps-IsSound s (next r st) = Step-IsSound st (Steps-IsSound s r)

sound_modes :
    (c : CoreController)
    → IsSound c
    → ((is_crashed c && c.running) ≡ false) × ((is_crashed c && is_standby c) ≡ false)
unfolding is_crashed is_standby
sound_modes c s = elim (Bool-cases c.crashed) [
  | inl t ↦ let r = s.gone t in let i = s.wanted t in rw (t, r, i) (refl, refl)
  | inr t ↦ rw t (refl, refl)
]

-- Whatever happens to the controller: a core that is shown as crashed does not run, and is not shown as waiting for the operator, who wants it to run.
pub Steps-modes :
    {c : CoreController}
    → Steps new_controller c
    → ((is_crashed c && c.running) ≡ false) × ((is_crashed c && is_standby c) ≡ false)
unfolding is_crashed is_standby
Steps-modes {c} r =
    sound_modes c
      (Steps-IsSound (record { meant = λ h. cc h; wanted = λ h. cc h; gone = λ h. cc h }) r)
