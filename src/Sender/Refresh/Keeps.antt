-- ===== src/Sender/Refresh/Keeps.antt =====
-- What the meta refresher never changes.
use mathlib.Core.Path.{subst}
use rfid_middleware_idro900e.Prelude.{
  ℕ, ◌≤◌, ◌<◌, String, true, not, ◌||◌, Option, none, some, ◌==◌, str_eq, str_eq_iff, ◌≡◌, ◌⊎◌,
  Option-cases, refl, arith, inl, inr, Bool-cases,
}
use rfid_middleware_idro900e.Domain.{millis, GateMeta, GateState, sendable}
use rfid_middleware_idro900e.Store.{Db}
use rfid_middleware_idro900e.Gate.{Entry, Registry, Persister, persist, get, refresh_meta}
use rfid_middleware_idro900e.Gate.Entries.{can_send}
use rfid_middleware_idro900e.Gate.Writes.{refresh_outcome, refresh_frame}
use rfid_middleware_idro900e.Congkong.Decode.{preflight_meta}
use rfid_middleware_idro900e.Congkong.Classify.{HttpResult}
use rfid_middleware_idro900e.Sender.{World, seconds}
use rfid_middleware_idro900e.Sender.Refresh.{
  span, next_delay, apply_meta, on_answer, meta_state, meta_reason,
}

-- The delay is between fifty and seventy seconds.
pub next_delay_bounds :
    (n : ℕ) → n < span → (seconds 50 ≤ next_delay n) × (next_delay n ≤ seconds 70)
unfolding next_delay
next_delay_bounds n h = (omega arith, omega arith)

abbrev stored_fingerprint : Option Entry → String
stored_fingerprint none = ""
stored_fingerprint (some e) = e.fingerprint

-- Of one reader: it neither starts nor stops to be one that may send, it keeps its entry if it is none, and its
-- fingerprint stays.
abbrev pub Untouched : String → Registry → Registry → Type 0
Untouched j reg reg' =
    (can_send (get j reg') ≡ can_send (get j reg))
    × ((can_send (get j reg) ≡ true) ⊎ (get j reg' ≡ get j reg))
    × (stored_fingerprint (get j reg') ≡ stored_fingerprint (get j reg))

same-Untouched : (j : String) (reg reg' : Registry) → reg' ≡ reg → Untouched j reg reg'
same-Untouched j reg reg' h = rw h (refl, inr refl, refl)

sendable_meta : (m : GateMeta) → sendable (meta_state m) ≡ true
sendable_meta m = ground arith

refresh-Untouched :
    (p : Persister) (r : String) (now : ℕ) (m : GateMeta) (reg : Registry) (db : Db) (j : String)
    → Untouched j reg (refresh_meta p r (meta_state m) (meta_reason m) now m reg db).registry
refresh-Untouched p r now m reg db j =
    elim (refresh_outcome p r (meta_state m) (meta_reason m) now reg db m) [
      | inl h ↦ same-Untouched j _ _ h
      | inr (e, h, s, k) ↦ elim (Bool-cases (str_eq r j)) [
        | inl t ↦
            let g : get j reg ≡ some e = subst (λ x. get x reg ≡ some e) ((str_eq_iff r j).0 t) h in
            rw (k j, t, g, s, sendable_meta m) (refl, inl refl, refl)
        | inr t ↦ rw (k j, t) (refl, inr refl, refl)
      ]
    ]

-- Whatever answer comes, and whatever became of the registry since it was asked for: no reader starts or stops to be
-- one that may send, a reader that may not send keeps its entry, and every fingerprint stays.
pub on_answer_keeps :
    (p : Persister) (r : String) (now : ℕ) (res : HttpResult) (w : World) (j : String)
    → Untouched j w.reg (on_answer p r now res w).reg
unfolding on_answer apply_meta
on_answer_keeps p r now res w j =
    elim (Bool-cases (res.transport_err || res.body_err || not (res.status == 200))) [
      | inl t ↦ rw t (same-Untouched j w.reg w.reg refl)
      | inr t ↦ rw t (applied-Untouched (preflight_meta res.body))
    ]
  where
    applied-Untouched : (o : Option GateMeta) → Untouched j w.reg (apply_meta p r now o w).reg
    applied-Untouched none = same-Untouched j w.reg w.reg refl
    applied-Untouched (some m) = refresh-Untouched p r (millis now) m w.reg w.db j

-- The answer changes neither the sender's state nor what was sent, and of the tables at most one gate's row.
pub on_answer_frame :
    (p : Persister) (r : String) (now : ℕ) (res : HttpResult) (w : World)
    → ((on_answer p r now res w).reg.global ≡ w.reg.global)
      × ((on_answer p r now res w).posts ≡ w.posts)
      × (((on_answer p r now res w).db ≡ w.db)
          ⊎ ((st : GateState) × (why : String) × (fp : String) × (m : GateMeta) × ((on_answer p r
                  now res w).db
                ≡ (persist p r st why (millis now) fp (some m) w.db).1)))
unfolding on_answer apply_meta
on_answer_frame p r now res w =
    elim (Bool-cases (res.transport_err || res.body_err || not (res.status == 200))) [
      | inl t ↦ rw t (refl, refl, inl refl)
      | inr t ↦ elim (Option-cases (preflight_meta res.body)) [
        | inl n ↦ rw (t, n, apply_meta) (refl, refl, inl refl)
        | inr (m, n) ↦
            let (g, d) =
              refresh_frame p r (meta_state m) (meta_reason m) (millis now) w.reg w.db m in
            rw (t, n, apply_meta)
              (
                g,
                refl,
                elim d [
                  | inl e ↦ inl e
                  | inr (fp, e) ↦ inr (meta_state m, meta_reason m, fp, m, e)
                ],
              )
      ]
    ]
