-- ===== src/App/Telemetry/Server.antt =====
-- What the telemetry says of the server and of the queue, after any reports.
use rfid_middleware_idro900e.Prelude.{
  ℕ, ◌<◌, String, Bool, true, false, List, [], ◌∷◌, ◌++◌, Option, none, some, ◌≡◌, ◌≢◌, refl, arith,
  All,
}
use rfid_middleware_idro900e.App.Telemetry.{
  Telemetry, new_telemetry, server_contact, server, before, queue_depth_observed,
}

-- The reports, each with its instant.
unfoldable pub contacts : List (Bool × ℕ) → Telemetry → Telemetry
contacts [] t = t
contacts ((ok, now) ∷ rest) t = contacts rest (server_contact ok now t)

-- No instant of the telemetry has come.
Earlier : ℕ → Telemetry → Type 0
Earlier now t =
    (before t.server_ok_at (some now) ≡ true) × (before t.server_fail_at (some now) ≡ true)

contact-Earlier :
    (ok : Bool) (at now : ℕ) (t : Telemetry)
    → at < now
    → Earlier now t
    → Earlier now (server_contact ok at t)
unfolding Earlier server_contact
contact-Earlier true at now t h e = (ground (arith, h), e.1)
contact-Earlier false at now t h e = (e.0, ground (arith, h))

contacts-Earlier :
    (cs : List (Bool × ℕ)) (now : ℕ) (t : Telemetry)
    → All (λ (c : Bool × ℕ). c.1 < now) cs
    → Earlier now t
    → Earlier now (contacts cs t)
unfolding contacts
contacts-Earlier [] now t h e = e
contacts-Earlier ((ok, at) ∷ cs) now t h e =
    contacts-Earlier cs now _ h.1 (contact-Earlier ok at now t h.0 e)

last_contact :
    (cs : List (Bool × ℕ)) (ok : Bool) (now : ℕ) (t : Telemetry)
    → contacts (cs ++ (ok, now) ∷ []) t ≡ server_contact ok now (contacts cs t)
unfolding contacts
last_contact [] ok now t = refl
last_contact ((o, at) ∷ cs) ok now t = last_contact cs ok now (server_contact o at t)

before_asym : (now : ℕ) (o : Option ℕ) → before o (some now) ≡ true → before (some now) o ≡ false
before_asym now none h = refl
before_asym now (some b) h = ground (arith, h)

online_of :
    (ok : Bool) (now : ℕ) (t : Telemetry)
    → Earlier now t
    → (server (server_contact ok now t)).1 ≡ ok
unfolding Earlier server server_contact
online_of true now t e = rw (before_asym now t.server_fail_at e.1) refl
online_of false now t e = rw e.0 refl

-- After any reports of contacts with the server, the last of which came at a later instant than all others, the server is shown as online
-- exactly if that one succeeded.
pub server_contacts :
    (ids : List String) (start : ℕ) (cs : List (Bool × ℕ)) (ok : Bool) (now : ℕ)
    → All (λ (c : Bool × ℕ). c.1 < now) cs
    → (server (contacts (cs ++ (ok, now) ∷ []) (new_telemetry ids start))).1 ≡ ok
unfolding Earlier
server_contacts ids start cs ok now h =
    rw (last_contact cs ok now (new_telemetry ids start))
      (online_of ok now _ (contacts-Earlier cs now (new_telemetry ids start) h (refl, refl)))

-- The depths that were seen, each with its instant.
unfoldable pub observed : List (ℕ × ℕ) → Telemetry → Telemetry
observed [] t = t
observed ((depth, now) ∷ rest) t = observed rest (queue_depth_observed depth now t)

still_since :
    (ds : List (ℕ × ℕ)) (at : ℕ) (t : Telemetry)
    → All (λ (d : ℕ × ℕ). d.0 ≢ 0) ds
    → t.queue_non_empty_since ≡ some at
    → (observed ds t).queue_non_empty_since ≡ some at
unfolding observed queue_depth_observed
still_since [] at t h e = e
still_since ((d, now) ∷ ds) at t h e = still_since ds at _ h.1 (ground (arith, h.0, e))

-- While the queue does not run empty, the instant since which it has not been empty stays the first one at which rows were seen.
pub queue_since :
    (t : Telemetry) (d empty_at now : ℕ) (ds : List (ℕ × ℕ))
    → d ≢ 0
    → All (λ (x : ℕ × ℕ). x.0 ≢ 0) ds
    → (observed ((0, empty_at) ∷ (d, now) ∷ ds) t).queue_non_empty_since ≡ some now
unfolding observed queue_depth_observed
queue_since t d empty_at now ds n h = still_since ds now _ h (ground (arith, n))
