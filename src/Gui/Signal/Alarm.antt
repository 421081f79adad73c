-- ===== src/Gui/Signal/Alarm.antt =====
-- From the gates to the lamp: `writeStatus` of internal/app/app.go and `BuildState` of internal/gui/state.go.
use mathlib.Core.List.Memᴰ.{not-nil}
use rfid_middleware_idro900e.Prelude.{
  ℕ, String, Bool, true, false, List, [], ◌∷◌, map, Option, some, ◌≡◌, ◌⊎◌, refl, ap, sym, inl, inr,
  Bool-cases, Memᴰ,
}
use rfid_middleware_idro900e.Domain.{
  GateState, suspended, suspended_token, suspended_config, suspended_rebind, preflight_pending,
  preflight_retry, active, active_warning, halted,
}
use rfid_middleware_idro900e.Store.{Db}
use rfid_middleware_idro900e.Gate.{Entry, Registry, get}
use rfid_middleware_idro900e.Config.{Reader}
use rfid_middleware_idro900e.App.Telemetry.{Telemetry}
use rfid_middleware_idro900e.App.Status.{
  Process, Status, ReaderStatus, gate_text, gate_or, reader_status, write_status,
}
use rfid_middleware_idro900e.Gui.Signal.{
  red, Shown, rule, found, first_of, has_state, is_broken, eval_signal, parsed_older, build_state,
}
use rfid_middleware_idro900e.Sender.{seconds}

found_red :
    (p : ReaderStatus → Bool) (f : ReaderStatus → Shown) (rs : List ReaderStatus) (rest : Shown)
    → ((r : ReaderStatus) → (f r).0 ≡ red)
    → rest.0 ≡ red
    → (found (first_of p f rs) rest).0 ≡ red
unfolding first_of
found_red p f [] rest c h = h
found_red p f (r ∷ rs) rest c h = elim (Bool-cases (p r)) [
  | inl t ↦ rw t (c r)
  | inr t ↦ rw t (found_red p f rs rest c h)
]

found_hit :
    (p : ReaderStatus → Bool) (f : ReaderStatus → Shown) (rs : List ReaderStatus) (rest : Shown)
    (x : ReaderStatus)
    → ((r : ReaderStatus) → (f r).0 ≡ red)
    → Memᴰ x rs
    → p x ≡ true
    → (found (first_of p f rs) rest).0 ≡ red
unfolding first_of
found_hit p f [] rest x c m h = absurd (not-nil m)
found_hit p f (r ∷ rs) rest x c (Memᴰ.head e) h = rw (sym e) (rw h (c x))
found_hit p f (r ∷ rs) rest x c (Memᴰ.tail m) h = elim (Bool-cases (p r)) [
  | inl t ↦ rw t (c r)
  | inr t ↦ rw t (found_hit p f rs rest x c m h)
]

rule_red : (b : Bool) (x rest : Shown) → x.0 ≡ red → rest.0 ≡ red → (rule b x rest).0 ≡ red
rule_red true x rest h k = h
rule_red false x rest h k = k

module _ (parse : String → Option ℕ) (s : Status) (now hours : ℕ) where
  halted_red : s.sender_state ≡ "HALTED_REQUEST_BUG" → (eval_signal parse s now hours).0 ≡ red
  unfolding eval_signal
  halted_red h = rw h refl

  revoked_red :
      (x : ReaderStatus)
      → Memᴰ x s.readers
      → has_state "SUSPENDED_TOKEN" x ≡ true
      → (eval_signal parse s now hours).0 ≡ red
  unfolding eval_signal
  revoked_red x m h = rule_red _ _ _ refl (found_hit _ _ s.readers _ x (λ r. refl) m h)

  broken_red :
      (x : ReaderStatus)
      → Memᴰ x s.readers
      → is_broken x ≡ true
      → (eval_signal parse s now hours).0 ≡ red
  unfolding eval_signal
  broken_red x m h =
      rule_red _ _ _ refl
        (found_red _ _ s.readers _ (λ r. refl) (found_hit _ _ s.readers _ x (λ r. refl) m h))

  suspended_red :
      (g : GateState) (x : ReaderStatus)
      → Memᴰ x s.readers
      → x.gate_state ≡ gate_text g
      → suspended g ≡ true
      → (eval_signal parse s now hours).0 ≡ red
  suspended_red suspended_token x m e h = revoked_red x m (rw e refl)
  suspended_red suspended_config x m e h = broken_red x m (rw e refl)
  suspended_red suspended_rebind x m e h = broken_red x m (rw e refl)
  suspended_red preflight_pending x m e h = cc h
  suspended_red preflight_retry x m e h = cc h
  suspended_red active x m e h = cc h
  suspended_red active_warning x m e h = cc h

  shown_red :
      (eval_signal parse s now hours).0 ≡ red → (build_state parse (some s) now hours).signal ≡ red
  unfolding build_state
  shown_red h = elim (Bool-cases (parsed_older (seconds 15) now (parse s.updated_at))) [
    | inl t ↦ rw t refl
    | inr t ↦ rw t h
  ]

mem_map {ℓ κ} :
    {A : Type ℓ} {B : Type κ} (f : A → B) (a : A) (xs : List A) → Memᴰ a xs → Memᴰ (f a) (map f xs)
mem_map f a [] m = absurd (not-nil m)
mem_map f a (x ∷ xs) (Memᴰ.head e) = Memᴰ.head (ap f e)
mem_map f a (x ∷ xs) (Memᴰ.tail m) = Memᴰ.tail (mem_map f a xs m)

-- Something that has to be seen: all sending is halted, or a configured reader is suspended.
abbrev pub IsTrouble : List Reader → Registry → Type 0
IsTrouble readers reg =
    (reg.global ≡ halted)
    ⊎ ((r : Reader) × (e : Entry) × Memᴰ r readers
        × (get r.id reg ≡ some e)
        × (suspended e.state ≡ true))

-- Whatever else the telemetry and the store hold, and whenever the window looks: a status file that was written while sending was halted or
-- a configured reader was suspended is shown in red.
pub trouble_is_red :
    (parse : String → Option ℕ) (p : Process) (readers : List Reader) (at : ℕ) (reg : Registry)
    (t : Telemetry) (db : Db) (now hours : ℕ)
    → IsTrouble readers reg
    → (build_state parse (some (write_status p readers at reg t db).0) now hours).signal ≡ red
unfolding write_status reader_status get
trouble_is_red parse p readers at reg t db now hours (inl h) =
    shown_red parse (write_status p readers at reg t db).0 now hours
      (halted_red parse (write_status p readers at reg t db).0 now hours (rw h refl))
trouble_is_red parse p readers at reg t db now hours (inr (r, e, m, g, s)) =
    shown_red parse (write_status p readers at reg t db).0 now hours (
      suspended_red parse (write_status p readers at reg t db).0 now hours e.state
        (reader_status p reg.entries t db r)
        (mem_map (reader_status p reg.entries t db) r readers m) (ap gate_or g) s)
