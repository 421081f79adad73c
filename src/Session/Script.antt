-- ===== src/Session/Script.antt =====
-- What the initialisation writes, and how far a session has come with it.
use mathlib.Core.List.{append_assoc, append-nil}
use rfid_middleware_idro900e.Prelude.{
  ℕ, Bool, true, false, List, [], ◌∷◌, ◌++◌, Option, none, some, Bytes, length, ◌≡◌, ◌⊎◌, refl, sym,
  ◌∙◌, ap, inl, inr, Bool-cases,
}
use rfid_middleware_idro900e.Protocol.Commands.{cmd_stop}
use rfid_middleware_idro900e.Session.{
  Config, Command, Phase, draining, awaiting, inventory, ended, Session, advance, init_steps,
  start_init,
}
use rfid_middleware_idro900e.Session.Frame.{Frame}

-- The commands of a list, without the tests for their replies.
abbrev pub sent : List Command → List Bytes
sent [] = []
sent ((cmd, match) ∷ rest) = cmd ∷ sent rest

abbrev pub sent_of : Option (List Command) → List Bytes
sent_of none = []
sent_of (some steps) = sent steps

-- Everything that the initialisation writes: Stop, and the commands that the configuration allows.
abbrev pub script : Config → List Bytes
script cfg = cmd_stop ∷ sent_of (init_steps cfg)

-- What is still to be written fits the phase.
unfoldable pub Fits : Config → List Bytes → Phase → Type 0
Fits cfg rest draining = rest ≡ sent_of (init_steps cfg)
Fits cfg rest (awaiting match steps) = rest ≡ sent steps
Fits cfg rest inventory = ⊥
Fits cfg rest ended = Unit

unfoldable pub Inv : Config → Session → Type 0
Inv cfg st =
    (st.in_init ≡ true)
      × (st.reads ≡ [])
      × ((rest : List Bytes) × (st.written ++ rest ≡ script cfg) × Fits cfg rest st.phase)
    ⊎ (st.in_init ≡ false) × ((extra : List Bytes) × (st.written ≡ script cfg ++ extra))

pub Inv-Frame : (cfg : Config) (st st' : Session) → Frame st st' → Inv cfg st → Inv cfg st'
unfolding Frame Inv
Inv-Frame cfg st st' (w, p, i, r) (inl (t, n, (rest, e, f))) =
    inl (i ∙ t, r t ∙ n, (rest, rw w e, rw p f))
Inv-Frame cfg st st' (w, p, i, r) (inr (t, (extra, e))) = inr (i ∙ t, (extra, w ∙ e))

-- What must still be written is `rest`.
unfoldable pub Todo : Config → List Bytes → Session → Type 0
Todo cfg rest st =
    ((st.in_init ≡ true) × (st.reads ≡ []) × (st.written ++ rest ≡ script cfg))
    ⊎ (st.in_init ≡ false) × ((extra : List Bytes) × (st.written ≡ script cfg ++ extra))

pub advance-Inv :
    (fails : ℕ → Bool) (cfg : Config) (steps : List Command) (st : Session)
    → Todo cfg (sent steps) st
    → Inv cfg (advance fails steps st)
unfolding advance Inv Fits Todo
advance-Inv fails cfg [] st (inl (t, n, e)) =
    inr (refl, ([], sym (append-nil st.written) ∙ e ∙ sym (append-nil (script cfg))))
advance-Inv fails cfg [] st (inr (t, (extra, e))) = inr (refl, (extra, e))
advance-Inv fails cfg ((cmd, match) ∷ rest) st (inl (t, n, e)) =
    elim (Bool-cases (fails (length st.written))) [
      | inl x ↦ rw x (inl (t, n, (cmd ∷ sent rest, e, tt)))
      | inr x ↦
          rw x (inl (t, n, (sent rest, append_assoc st.written (cmd ∷ []) (sent rest) ∙ e, refl)))
    ]
advance-Inv fails cfg ((cmd, match) ∷ rest) st (inr (t, (extra, e))) =
    elim (Bool-cases (fails (length st.written))) [
      | inl x ↦ rw x (inr (t, (extra, e)))
      | inr x ↦ rw x (
          inr (
            t,
            (
              extra ++ cmd ∷ [],
              ap (λ (x : List Bytes). x ++ cmd ∷ []) e ∙ append_assoc (script cfg) extra (cmd ∷ []),
            ),
          ))
    ]

pub Todo-Frame :
    (cfg : Config) (rest : List Bytes) (st st' : Session)
    → Frame st st'
    → Todo cfg rest st
    → Todo cfg rest st'
unfolding Frame Todo
Todo-Frame cfg rest st st' (w, p, i, r) (inl (t, n, e)) = inl (i ∙ t, r t ∙ n, rw w e)
Todo-Frame cfg rest st st' (w, p, i, r) (inr (t, (extra, e))) = inr (i ∙ t, (extra, w ∙ e))

-- The invariant, in a phase that says what is still to be written.
pub rest_of :
    (cfg : Config) (st : Session) (p : Phase) (rest : List Bytes)
    → ((l : List Bytes) → Fits cfg l p → l ≡ rest)
    → st.phase ≡ p
    → Inv cfg st
    → Todo cfg rest st
unfolding Inv Todo
rest_of cfg st p rest f h (inl (t, n, (l, e, g))) = inl (t, n, rw (f l (rw h at g)) at e)
rest_of cfg st p rest f h (inr x) = inr x

pub end-Inv : (cfg : Config) (st : Session) → Inv cfg st → Inv cfg (record st { phase = ended })
unfolding Inv Fits
end-Inv cfg st (inl (t, n, (l, e, g))) = inl (t, n, (l, e, tt))
end-Inv cfg st (inr x) = inr x

pub start-Inv :
    (fails : ℕ → Bool) (cfg : Config) (o : Option (List Command)) (st : Session)
    → Todo cfg (sent_of o) st
    → Inv cfg (start_init fails o st)
unfolding start_init Todo Inv Fits
start-Inv fails cfg none st (inl (t, n, e)) = inl (t, n, ([], e, tt))
start-Inv fails cfg none st (inr x) = inr x
start-Inv fails cfg (some steps) st h = advance-Inv fails cfg steps st h
