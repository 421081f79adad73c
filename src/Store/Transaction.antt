-- ===== src/Store/Transaction.antt =====
-- What an operation of the store returns: a result, or the driver's error.
pub data Result {ℓ} (A : Type ℓ) : Type ℓ where
  ok : A → Result A
  failed : Result A
