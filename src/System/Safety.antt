-- ===== src/System/Safety.antt =====
-- What holds however the steps of the parts interleave.
use rfid_middleware_idro900e.Prelude.{ℕ, String, Bool, Option, some, ◌≡◌, refl, ap, ◌∙◌, inl, inr}
use rfid_middleware_idro900e.Domain.{
  millis, QueueItem, halted, DeliveryDecision, complete, drop, retry, suspend_reader, halt_global,
  GateState, GateMeta,
}
use rfid_middleware_idro900e.Store.{Db}
use rfid_middleware_idro900e.Store.Invariant.Reach.{Reach, next, gates}
use rfid_middleware_idro900e.Store.Queue.{to_item}
use rfid_middleware_idro900e.Gate.{Registry, store, set, persist}
use rfid_middleware_idro900e.Admission.{Service}
use rfid_middleware_idro900e.Admission.Keeps.{handle-Reach}
use rfid_middleware_idro900e.Congkong.Classify.{classify}
use rfid_middleware_idro900e.Sender.{Sender, Faults, World, round, in_state}
use rfid_middleware_idro900e.Sender.Delivery.{settle_posts, round_cases}
use rfid_middleware_idro900e.Sender.Tables.{round-Reach, settle-Reach}
use rfid_middleware_idro900e.Sender.Stops.{Settled, settle-Settled}
use rfid_middleware_idro900e.Sender.Preflight.{attempt}
use rfid_middleware_idro900e.Sender.Refresh.Keeps.{on_answer_frame}
use rfid_middleware_idro900e.System.{
  settled_with, System, Step, receives, rounds, requests, settles, checks, refreshes, Steps,
  none_yet, step,
}

set-Reach :
    (fails : Bool) (r : String) (st : GateState) (why : String) (now : ℕ) (fp : String)
    (m : Option GateMeta) (reg : Registry) (db : Db) (i : ℕ)
    → Reach i db
    → Reach i (set (store fails) r st why now fp m reg db).db
unfolding set persist
set-Reach fails r st why now fp m reg db i h = next h (gates fails r st why now fp m)

-- All sending is halted, and nothing more was sent.
abbrev pub Silent : System → System → Type 0
Silent sys sys' = (sys'.world.reg.global ≡ halted) × (sys'.world.posts ≡ sys.world.posts)

Settled-halted :
    (item : QueueItem) (reg reg' : Registry) (d : DeliveryDecision)
    → Settled item reg reg' d
    → reg.global ≡ halted
    → reg'.global ≡ halted
Settled-halted item reg reg' complete h g = rw h g
Settled-halted item reg reg' drop h g = rw h g
Settled-halted item reg reg' retry h g = rw h g
Settled-halted item reg reg' suspend_reader (_, h, _) g = h ∙ g
Settled-halted item reg reg' halt_global (h, _) g = h

halted_round :
    (s : Sender) (f : Faults) (now : ℕ) (w : World)
    → w.reg.global ≡ halted
    → ((round s f now w).0.reg.global ≡ w.reg.global) × ((round s f now w).0.posts ≡ w.posts)
halted_round s f now w g = elim (round_cases s f now w) [
  | inl (_, _, p, _, e) ↦ (ap (λ (r : Registry). r.global) e, p)
  | inr (_, r, _, _, _) ↦ absurd (cc (r, g))
]

module _ {format : ℕ → String} {digest : String → String} {svc : Service} {s : Sender} where
  Step-Reach :
      {sys sys' : System}
      → Step format digest svc s sys sys'
      → Reach (millis svc.debounce) sys.world.db
      → Reach (millis svc.debounce) sys'.world.db
  unfolding attempt persist
  Step-Reach (receives fails read sys) h =
      handle-Reach format fails svc sys.world.reg read sys.world.db h
  Step-Reach (rounds f now w) h = round-Reach s f now w _ h
  Step-Reach (requests f now w row token g n x c) h = h
  Step-Reach (settles f now w row res) h = settle-Reach s f now (to_item row) res _ w _ _ h
  Step-Reach (checks fails r token now res sys) h =
      set-Reach fails r _ _ _ _ _ sys.world.reg sys.world.db _ h
  Step-Reach (refreshes fails r now res sys) h =
      elim (on_answer_frame (store fails) r now res sys.world).2 [
        | inl e ↦ rw e h
        | inr (st, why, fp, m, e) ↦ rw e (next h (gates fails r st why (millis now) fp (some m)))
      ]

  -- However the parts interleave, the tables stay such as the store's operations reach, under the debounce interval of the service.
  pub Steps-Reach :
      {start sys : System}
      → Steps format digest svc s start sys
      → Reach (millis svc.debounce) start.world.db
      → Reach (millis svc.debounce) sys.world.db
  Steps-Reach none_yet h = h
  Steps-Reach (step steps last) h = Step-Reach last (Steps-Reach steps h)

  Step-halted :
      {sys sys' : System}
      → Step format digest svc s sys sys'
      → sys.world.reg.global ≡ halted
      → Silent sys sys'
  unfolding attempt round set in_state
  Step-halted (receives fails read sys) g = (g, refl)
  Step-halted (rounds f now w) g = let (e, q) = halted_round s f now w g in (e ∙ g, q)
  Step-halted (requests f now w row token r n x c) g = absurd (cc (r, g))
  Step-halted (settles f now w row res) g = (
    Settled-halted (to_item row) w.reg (settled_with s f now row res w).reg (classify res).0
        (settle-Settled s f now (to_item row) res (classify res).1 w (classify res).0) g,
    settle_posts s f now (to_item row) res _ _ w,
  )
  Step-halted (checks fails r token now res sys) g = (g, refl)
  Step-halted (refreshes fails r now res sys) g =
      let (a, b, _) = on_answer_frame (store fails) r now res sys.world in (a ∙ g, b)

  -- Once all sending is halted, no step of any part starts it again, and the sender sends no further request.
  pub Steps-halted :
      {start sys : System}
      → Steps format digest svc s start sys
      → start.world.reg.global ≡ halted
      → Silent start sys
  Steps-halted none_yet g = (g, refl)
  Steps-halted (step steps last) g =
      let (a, b) = Steps-halted steps g in let (c, d) = Step-halted last a in (c, d ∙ b)
