-- ===== src/Congkong/Classify/Exact.antt =====
-- When `Classify` takes each decision, written without its order of tests.
use rfid_middleware_idro900e.Prelude.{◌≤◌, true, false, str_eq_iff, ◌≡◌, ◌⊎◌, ◌↔◌, arith, refl}
use rfid_middleware_idro900e.Domain.{complete, retry, suspend_reader, halt_global}
use rfid_middleware_idro900e.Congkong.Decode.{decode_envelope, data_says, says_success}
use rfid_middleware_idro900e.Congkong.Classify.{HttpResult, classify}

-- The answer came, and was read to its end.
abbrev pub IsRead : HttpResult → Type 0
IsRead r = (r.transport_err ≡ false) × (r.body_err ≡ false)

module _ (r : HttpResult) where
  complete_iff : ((classify r).0 ≡ complete) ↔ (
      IsRead r
      × ((r.status ≡ 200) × (says_success r.body ≡ true)
          ⊎ (r.status ≡ 409) × (data_says r.body "success:duplication" ≡ true)))
  unfolding classify
  complete_iff = (λ h. ground (arith, h), λ h. ground (arith, h))

  retry_iff :
      ((classify r).0 ≡ retry) ↔ ((r.transport_err ≡ true) ⊎ (r.body_err ≡ true) ⊎ 500 ≤ r.status)
  unfolding classify
  retry_iff = (λ h. ground (arith, h), λ h. ground (arith, h))

  suspend_iff :
      ((classify r).0 ≡ suspend_reader)
      ↔ (IsRead r × (r.status ≡ 404) × (data_says r.body "fail:barcode-not-found" ≡ false))
  unfolding classify
  suspend_iff = (λ h. ground (arith, h), λ h. ground (arith, h))

  halt_iff :
      ((classify r).0 ≡ halt_global)
      ↔ (IsRead r × (r.status ≡ 400) × ((decode_envelope r.body).message ≡ "error bind"))
  unfolding classify
  halt_iff = (
    λ h. ground (arith, h, str_eq_iff (decode_envelope r.body).message "error bind"),
    λ h. rw (h.0.0, h.0.1, h.1, h.2) refl,
  )

  -- When each decision is taken; a row is dropped in all other cases.
  abbrev pub Exact : Type 0
  Exact =
      (((classify r).0 ≡ complete) ↔ (
        IsRead r
        × ((r.status ≡ 200) × (says_success r.body ≡ true)
            ⊎ (r.status ≡ 409) × (data_says r.body "success:duplication" ≡ true))))
      × (((classify r).0 ≡ retry)
          ↔ ((r.transport_err ≡ true) ⊎ (r.body_err ≡ true) ⊎ 500 ≤ r.status))
      × (((classify r).0 ≡ suspend_reader)
          ↔ (IsRead r × (r.status ≡ 404) × (data_says r.body "fail:barcode-not-found" ≡ false)))
      × (((classify r).0 ≡ halt_global)
          ↔ (IsRead r × (r.status ≡ 400) × ((decode_envelope r.body).message ≡ "error bind")))

  -- `Classify` takes a row for checked in exactly on a 200 whose top-level result is "success", or a
  -- 409 whose `data.result` is "success:duplication"; it has it sent again exactly where the request failed, the answer was
  -- cut off, or the status is 500 or more; it suspends the reader exactly on a 404 that does not say, in `data.result`,
  -- that the barcode was not found; it halts all sending exactly on a 400 whose message is "error bind".
  pub classify_exact : Exact
  classify_exact = (complete_iff, retry_iff, suspend_iff, halt_iff)
