-- ===== src/Session/Initialization.antt =====
-- The initialisation of a session: which commands are written, and that no tag is admitted before its end.
use rfid_middleware_idro900e.Prelude.{
  ℕ, Bool, true, false, List, [], ◌∷◌, ◌++◌, Option, none, some, Bytes, any, ◌≡◌, ◌⊎◌, refl, inl,
  inr, Bool-cases,
}
use rfid_middleware_idro900e.Prelude.Int.{ℤ}
use rfid_middleware_idro900e.Protocol.Parser.{parse}
use rfid_middleware_idro900e.Protocol.Commands.{cmd_set_power, match_ack}
use rfid_middleware_idro900e.Session.{
  Config, Phase, draining, awaiting, inventory, ended, Session, Event, chunk, expired, closed,
  cancelled, power, taken, feed, handle_chunk, consume_until, init_steps, open_session, reconfigure,
  take_reconfig, on_chunk, on_expired, on_taken, on_event, run, or_kept,
}
use rfid_middleware_idro900e.Session.Frame.{
  feed-Frame, handle_chunk-Frame, consume_until-Frame, reconfig-Frame,
}
use rfid_middleware_idro900e.Session.Script.{
  sent, sent_of, script, Fits, Inv, Todo, rest_of, Todo-Frame, end-Inv, start-Inv, advance-Inv,
  Inv-Frame,
}

on_chunk-Inv :
    (fails : ℕ → Bool) (cfg : Config) (now : ℕ) (bytes : Bytes) (st : Session) (p : Phase)
    → st.phase ≡ p
    → Inv cfg st
    → Inv cfg (on_chunk fails cfg now bytes st p)
unfolding on_chunk Fits
on_chunk-Inv fails cfg now bytes st draining h i =
    elim (Bool-cases (any (λ raw. match_ack b'3' (parse raw)) (feed bytes st).1)) [
      | inl t ↦ rw t (
          start-Inv fails cfg (init_steps cfg) (feed bytes st).0 (
            Todo-Frame cfg _ st (feed bytes st).0 (feed-Frame bytes st)
              (rest_of cfg st draining _ (λ l f. f) h i)))
      | inr t ↦ rw t (Inv-Frame cfg st (feed bytes st).0 (feed-Frame bytes st) i)
    ]
on_chunk-Inv fails cfg now bytes st (awaiting match rest) h i =
    elim (Bool-cases (consume_until cfg now match bytes st).1) [
      | inl t ↦ rw t (
          advance-Inv fails cfg rest (consume_until cfg now match bytes st).0 (
            Todo-Frame cfg (sent rest) st _ (consume_until-Frame cfg now match bytes st)
              (rest_of cfg st (awaiting match rest) (sent rest) (λ l f. f) h i)))
      | inr t ↦ rw t (
          Inv-Frame cfg st (consume_until cfg now match bytes st).0
            (consume_until-Frame cfg now match bytes st) i)
    ]
on_chunk-Inv fails cfg now bytes st inventory h i =
    Inv-Frame cfg st (handle_chunk cfg now bytes st) (handle_chunk-Frame cfg now bytes st) i
on_chunk-Inv fails cfg now bytes st ended h i = i

on_expired-Inv :
    (fails : ℕ → Bool) (cfg : Config) (st : Session) (p : Phase)
    → st.phase ≡ p
    → Inv cfg st
    → Inv cfg (on_expired fails cfg st p)
unfolding on_expired Fits
on_expired-Inv fails cfg st draining h i =
    start-Inv fails cfg (init_steps cfg) st
      (rest_of cfg st draining (sent_of (init_steps cfg)) (λ l f. f) h i)
on_expired-Inv fails cfg st (awaiting match rest) h i = end-Inv cfg st i
on_expired-Inv fails cfg st inventory h i = i
on_expired-Inv fails cfg st ended h i = i

-- A change of power only comes when the inventory runs.
reconfigure-Inv :
    (fails : ℕ → Bool) (cfg : Config) (o : Option Bytes) (st : Session)
    → st.in_init ≡ false
    → Inv cfg st
    → Inv cfg (reconfigure fails o st)
unfolding Inv Todo
reconfigure-Inv fails cfg none st t i = i
reconfigure-Inv fails cfg (some cmd) st t (inl (u, _, _)) = absurd (cc (t, u))
reconfigure-Inv fails cfg (some cmd) st t (inr (_, x)) = advance-Inv fails cfg _ _ (inr (t, x))

in_inventory :
    (cfg : Config) (st : Session) → st.phase ≡ inventory → Inv cfg st → st.in_init ≡ false
unfolding Inv Fits
in_inventory cfg st h (inl (t, n, (l, e, g))) = absurd (rw h at g)
in_inventory cfg st h (inr (t, x)) = t

take_reconfig-Inv :
    (fails : ℕ → Bool) (cfg : Config) (o : Option ℤ) (st : Session)
    → st.in_init ≡ false
    → Inv cfg st
    → Inv cfg (take_reconfig fails o st)
unfolding take_reconfig
take_reconfig-Inv fails cfg none st t i = i
take_reconfig-Inv fails cfg (some v) st t i =
    reconfigure-Inv fails cfg (cmd_set_power v) (record st { reconfig = none }) t
      (Inv-Frame cfg st (record st { reconfig = none }) (reconfig-Frame st none) i)

on_event-Inv :
    (fails : ℕ → Bool) (cfg : Config) (e : Event) (st : Session)
    → Inv cfg st
    → Inv cfg (on_event fails cfg e st)
unfolding on_event on_taken
on_event-Inv fails cfg (chunk now bytes) st i = on_chunk-Inv fails cfg now bytes st st.phase refl i
on_event-Inv fails cfg expired st i = on_expired-Inv fails cfg st st.phase refl i
on_event-Inv fails cfg closed st i = end-Inv cfg st i
on_event-Inv fails cfg cancelled st i = end-Inv cfg st i
on_event-Inv fails cfg (power v) st i =
    Inv-Frame cfg st _ (reconfig-Frame st (some (or_kept st.reconfig v))) i
on_event-Inv fails cfg taken st i = by_phase st.phase refl
  where
    by_phase : (p : Phase) → st.phase ≡ p → Inv cfg (on_taken fails st p)
    by_phase inventory h = take_reconfig-Inv fails cfg st.reconfig st (in_inventory cfg st h i) i
    by_phase draining h = i
    by_phase (awaiting match rest) h = i
    by_phase ended h = i

run-Inv :
    (fails : ℕ → Bool) (cfg : Config) (es : List Event) (st : Session)
    → Inv cfg st
    → Inv cfg (run fails cfg es st)
unfolding run
run-Inv fails cfg [] st i = i
run-Inv fails cfg (e ∷ es) st i =
    run-Inv fails cfg es (on_event fails cfg e st) (on_event-Inv fails cfg e st i)

open-Inv : (fails : ℕ → Bool) (cfg : Config) → Inv cfg (open_session fails)
unfolding open_session Inv Fits
open-Inv fails cfg = elim (Bool-cases (fails 0)) [
  | inl t ↦ rw t (inl (refl, refl, (script cfg, refl, tt)))
  | inr t ↦ rw t (inl (refl, refl, (sent_of (init_steps cfg), refl, refl)))
]

-- Either the initialisation goes on, with no tag admitted and a front part of the script written, or it is over.
abbrev pub InOrder : Config → Session → Type 0
InOrder cfg st =
    (st.in_init ≡ true)
      × (st.reads ≡ [])
      × ((rest : List Bytes) × (st.written ++ rest ≡ script cfg))
    ⊎ (st.in_init ≡ false) × ((extra : List Bytes) × (st.written ≡ script cfg ++ extra))

-- Whatever events a session meets, and whichever writes fail: until its initialisation is over no tag has reached the handler, and
-- what was written is a front part of Stop and the commands of the initialisation in their order; afterwards all of these were
-- written, each once, before anything else.
pub run_initializes :
    (fails : ℕ → Bool) (cfg : Config) (es : List Event)
    → InOrder cfg (run fails cfg es (open_session fails))
unfolding Inv
run_initializes fails cfg es =
    elim (run-Inv fails cfg es (open_session fails) (open-Inv fails cfg)) [
      | inl (t, n, (rest, e, _)) ↦ inl (t, n, (rest, e))
      | inr x ↦ inr x
    ]
