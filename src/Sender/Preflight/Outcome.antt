-- ===== src/Sender/Preflight/Outcome.antt =====
-- When an attempt of the preflight makes a reader sendable, and when it ends.
use mathlib.Core.Path.{subst}
use rfid_middleware_idro900e.Prelude.{
  ℕ, String, true, false, Option, none, some, leb, str_eq, str_eq_refl, ◌≡◌, ◌↔◌, refl, inl, inr,
  Bool-cases, ◌⊎◌, if◌then◌else◌, arith, ◌∙◌, if◌then◌else◌,
}
use rfid_middleware_idro900e.Domain.{
  millis, Secret, fingerprint, GateMeta, preflight_retry, sendable,
}
use rfid_middleware_idro900e.Gate.{Entry, Persister, get, changed_entry, entry_or_zero}
use rfid_middleware_idro900e.Gate.Entries.{can_send}
use rfid_middleware_idro900e.Gate.Writes.{set_writes}
use rfid_middleware_idro900e.Congkong.Decode.{preflight_meta}
use rfid_middleware_idro900e.Congkong.Classify.{HttpResult}
use rfid_middleware_idro900e.Sender.{World}
use rfid_middleware_idro900e.Sender.Preflight.{verdict, rebinds, attempt, of_meta}

-- An answer that came whole, from a server that does not fail.
abbrev pub IsAnswer : HttpResult → Type 0
IsAnswer res = (res.transport_err ≡ false) × (res.body_err ≡ false) × (leb 500 res.status ≡ false)

of_meta-sendable :
    (prev : Option Entry) (fp : String) (o : Option GateMeta)
    → (sendable (of_meta prev fp o).state ≡ true)
      ↔ ((m : GateMeta) × (o ≡ some m) × (rebinds prev fp m ≡ false))
unfolding of_meta
of_meta-sendable prev fp none = (λ h. absurd (cc h), λ (m, e, _). absurd (cc e))
of_meta-sendable prev fp (some m) = (
  λ h. (m, refl, ground (arith, h)),
  λ (m', e, n).
      let e' : m' ≡ m = cc e in
      let n' : rebinds prev fp m ≡ false = subst (λ x. rebinds prev fp x ≡ false) e' n in
      ground (arith, n'),
)

verdict-sendable :
    (prev : Option Entry) (fp : String) (res : HttpResult)
    → (sendable (verdict prev fp res).state ≡ true) ↔ (
        IsAnswer res
        × (res.status ≡ 200)
        × (sendable (of_meta prev fp (preflight_meta res.body)).state ≡ true))
unfolding verdict
verdict-sendable prev fp res = (λ h. ground (arith, h), λ h. ground (arith, h))

of_meta_final :
    (prev : Option Entry) (fp : String) (o : Option GateMeta) → (of_meta prev fp o).final ≡ true
unfolding of_meta
of_meta_final prev fp none = refl
of_meta_final prev fp (some m) = ground arith

pub verdict_final :
    (prev : Option Entry) (fp : String) (res : HttpResult)
    → ((verdict prev fp res).final ≡ true) ↔ IsAnswer res
unfolding verdict
verdict_final prev fp res = (
  λ h. ground (arith, h),
  λ h. ground (arith, h, of_meta_final prev fp (preflight_meta res.body)),
)

pub verdict_retries :
    (prev : Option Entry) (fp : String) (res : HttpResult)
    → (verdict prev fp res).final ≡ false
    → (verdict prev fp res).state ≡ preflight_retry
unfolding verdict
verdict_retries prev fp res h = ground (arith, h, of_meta_final prev fp (preflight_meta res.body))

module _ (digest : String → String) (p : Persister) (r : String) (token : Secret) (now : ℕ)
    (res : HttpResult) (w : World) where
  abbrev prev : Option Entry
  prev = get r w.reg

  entry_after :
      (j : String)
      → get j (attempt digest p r token now res w).0.reg ≡ (
          let v = verdict prev (fingerprint digest token) res in
          if str_eq r j
          then some (
              changed_entry v.state v.reason (fingerprint digest token) v.meta (entry_or_zero prev))
          else get j w.reg)
  unfolding attempt
  entry_after j =
      let v = verdict prev (fingerprint digest token) res in
      (set_writes p r v.state v.reason (millis now) w.reg w.db (fingerprint digest token) v.meta
        j).0

  pub own_entry : get r (attempt digest p r token now res w).0.reg ≡ (
      let v = verdict prev (fingerprint digest token) res in
      some (changed_entry v.state v.reason (fingerprint digest token) v.meta (entry_or_zero prev)))
  own_entry = entry_after r ∙ rw (str_eq_refl r) refl

  -- What an attempt leaves of every reader.
  abbrev pub Outcome : Type 0
  Outcome =
      ((can_send (get r (attempt digest p r token now res w).0.reg) ≡ true) ↔ (
        IsAnswer res
        × (res.status ≡ 200)
        × ((m : GateMeta) × (preflight_meta res.body ≡ some m)
            × (rebinds prev (fingerprint digest token) m ≡ false))))
      × ((j : String)
          → get j (attempt digest p r token now res w).0.reg ≡ (
              if str_eq r j then get r (attempt digest p r token now res w).0.reg else get j w.reg))

  -- An attempt leaves its reader sendable exactly where a whole 200 answer, with a body that keeps the contract, does not
  -- show another booth under another token; and it changes no other reader.
  pub attempt_sendable : Outcome
  attempt_sendable = (
    rw own_entry (
      λ h.
          let (a, b, c) = (verdict-sendable prev (fingerprint digest token) res).0 h in
          (a, b, (of_meta-sendable prev (fingerprint digest token) (preflight_meta res.body)).0 c),
      λ (a, b, c).
          (verdict-sendable prev (fingerprint digest token) res).1 (
            a,
            b,
            (of_meta-sendable prev (fingerprint digest token) (preflight_meta res.body)).1 c,
          ),
    ),
    λ j. ground (arith, entry_after j, own_entry),
  )

  -- Whether an attempt is the last one.
  abbrev pub Ends : Type 0
  Ends =
      (((attempt digest p r token now res w).1 ≡ true) ↔ IsAnswer res)
      × (((attempt digest p r token now res w).1 ≡ true)
          ⊎ ((e : Entry) × (get r (attempt digest p r token now res w).0.reg ≡ some e)
              × (e.state ≡ preflight_retry)))

  -- An attempt is the last one exactly where the answer came whole from a server that does not fail; otherwise the reader waits in `PREFLIGHT_RETRY`.
  pub attempt_final : Ends
  unfolding attempt
  attempt_final = (
    verdict_final prev (fingerprint digest token) res,
    elim (Bool-cases (verdict prev (fingerprint digest token) res).final) [
      | inl h ↦ inl h
      | inr h ↦ inr (_, own_entry, verdict_retries prev (fingerprint digest token) res h)
    ],
  )
