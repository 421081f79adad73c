-- ===== src/Sender/Preflight/Rebind.antt =====
-- The attempts of the preflight in a row: when they end, and what a failed one does to the guard against a
-- token of another booth.
use rfid_middleware_idro900e.Prelude.{
  ℕ, zero, suc, String, true, false, List, [], ◌∷◌, ◌++◌, some, str_eq, str_eq_iff, str_eq_refl,
  ◌≡◌, ◌≢◌, refl, ap, arith, inl, inr, Bool-cases, All, length, if◌then◌else◌,
}
use rfid_middleware_idro900e.Domain.{Secret, fingerprint, GateMeta}
use rfid_middleware_idro900e.Gate.{Persister, get, entry_or_zero, Entry}
use rfid_middleware_idro900e.Gate.Entries.{can_send}
use rfid_middleware_idro900e.Congkong.Decode.{preflight_meta}
use rfid_middleware_idro900e.Congkong.Classify.{HttpResult}
use rfid_middleware_idro900e.Sender.{World, backoff_delay}
use rfid_middleware_idro900e.Sender.Preflight.{rebinds, attempt, run_preflight}
use rfid_middleware_idro900e.Sender.Preflight.Outcome.{
  IsAnswer, attempt_sendable, own_entry, attempt_final,
}

-- The delays before the attempts after `k` of them, `n` in number.
unfoldable pub delays_after : ℕ → ℕ → List ℕ
delays_after k zero = []
delays_after k (suc n) = backoff_delay (suc k) ∷ delays_after (suc k) n

same_token :
    (fp : String) (m : GateMeta) (e : Entry) (old : String)
    → fp ≢ ""
    → e.fingerprint ≡ (if str_eq fp "" then old else fp)
    → rebinds (some e) fp m ≡ false
unfolding rebinds
same_token fp m e old n h =
    ground (arith, n, h, str_eq_iff fp "", str_eq_refl fp, str_eq_iff e.fingerprint fp)

module _ (digest : String → String) (p : Persister) (r : String) (token : Secret) where
  -- A failed attempt stores the fingerprint of the new token, so that the guard no longer sees a change of
  -- token: after it any whole 200 answer that keeps the contract leaves the reader sendable, whatever booth it names.
  pub retry_disarms_rebind :
      (now later : ℕ) (lost res : HttpResult) (w : World) (m : GateMeta)
      → fingerprint digest token ≢ ""
      → ¬ IsAnswer lost
      → IsAnswer res
      → res.status ≡ 200
      → preflight_meta res.body ≡ some m
      → can_send
          (get r (attempt digest p r token later res (attempt digest p r token now lost w).0).0.reg)
        ≡ true
  retry_disarms_rebind now later lost res w m n l a s e =
      (attempt_sendable digest p r token later res (attempt digest p r token now lost w).0).0.1 (
        a,
        s,
        (
          m,
          e,
          rw (own_entry digest p r token now lost w) (
              same_token (fingerprint digest token) m _ (entry_or_zero (get r w.reg)).fingerprint n
                refl),
        ),
      )

  goes_on :
      (now : ℕ) (x : HttpResult) (w : World)
      → ¬ IsAnswer x
      → (attempt digest p r token now x w).1 ≡ false
  goes_on now x w h = elim (Bool-cases (attempt digest p r token now x w).1) [
    | inl t ↦ absurd (h ((attempt_final digest p r token now x w).0.0 t))
    | inr t ↦ t
  ]

  -- The attempts go on over answers that are lost or come from a server that fails, with growing delays, and end with the
  -- first other answer; no later one is asked for.
  pub run_preflight_ends :
      (lost : List (ℕ × HttpResult)) (now : ℕ) (res : HttpResult) (rest : List (ℕ × HttpResult))
      (k : ℕ) (w : World)
      → All (λ (x : ℕ × HttpResult). ¬ IsAnswer x.1) lost
      → IsAnswer res
      → run_preflight digest p r token (lost ++ (now, res) ∷ rest) k w ≡ (
        (attempt digest p r token now res (run_preflight digest p r token lost k w).0).0,
        delays_after k (length lost),
      )
  unfolding run_preflight delays_after
  run_preflight_ends [] now res rest k w h a =
      rw ((attempt_final digest p r token now res w).0.1 a) refl
  run_preflight_ends ((t, x) ∷ lost) now res rest k w h a = rw (goes_on t x w h.0) (
      ap (λ (v : World × List ℕ). (v.0, backoff_delay (suc k) ∷ v.1))
        (run_preflight_ends lost now res rest (suc k) (attempt digest p r token t x w).0 h.1 a))
