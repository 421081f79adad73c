-- ===== src/Protocol/Cut.antt =====
-- `bytes.Index` for a separator of two bytes, with the slices that its callers take: what stands
-- before the first occurrence, and what stands after it.
use rfid_middleware_idro900e.Prelude.{
  ℕ, ◌+◌, ◌≤◌, ◌≡◌, refl, false, ◌&&◌, [], ◌∷◌, ◌++◌, Option, none, some, inl, inr, arith, ◌==◌,
  if◌then◌else◌, Bytes, length, Option-cases,
}

abbrev pub Cut : Type 0
Cut = Option (Bytes × Bytes)

abbrev pub before : ℕ → Cut → Cut
before c none = none
before c (some (l, r)) = some (c ∷ l, r)

unfoldable pub cut_at : ℕ → ℕ → Bytes → Cut
cut_at x y [] = none
cut_at x y (c ∷ []) = none
cut_at x y (c ∷ d ∷ rest) =
    if c == x && d == y then some ([], rest) else before c (cut_at x y (d ∷ rest))

module _ (x y : ℕ) where
  -- The two parts and the separator make up the whole.
  pub cut_at-splits : (s : Bytes) {l r : Bytes} → cut_at x y s ≡ some (l, r) → s ≡ l ++ (x ∷ y ∷ r)
  unfolding cut_at
  cut_at-splits [] h = cc
  cut_at-splits (c ∷ []) h = cc
  cut_at-splits (c ∷ d ∷ rest) h = elim (Option-cases (cut_at x y (d ∷ rest))) [
    | inl e ↦ ground (arith, h, e)
    | inr ((l', r'), e) ↦ ground (arith, h, e, cut_at-splits (d ∷ rest) e)
  ]

  left_step :
      (c d : ℕ) (rest l r : Bytes)
      → (c == x && d == y) ≡ false
      → cut_at x y (d ∷ rest) ≡ some (l, r)
      → cut_at x y l ≡ none
      → cut_at x y (c ∷ l) ≡ none
  unfolding cut_at
  left_step c d rest [] r t h n = refl
  left_step c d rest (e ∷ l) r t h n = ground (arith, n, t, cut_at-splits (d ∷ rest) h)

  -- No occurrence before the first one.
  pub cut_at-left_none :
      (s : Bytes) {l r : Bytes} → cut_at x y s ≡ some (l, r) → cut_at x y l ≡ none
  unfolding cut_at
  cut_at-left_none [] h = cc
  cut_at-left_none (c ∷ []) h = cc
  cut_at-left_none (c ∷ d ∷ rest) h = elim (Option-cases (cut_at x y (d ∷ rest))) [
    | inl e ↦ ground (arith, h, e)
    | inr ((l', r'), e) ↦
        ground (arith, h, e, left_step c d rest l' r', cut_at-left_none (d ∷ rest) e)
  ]

  -- More input behind an occurrence leaves it where it is.
  pub cut_at-append :
      (s t : Bytes) {l r : Bytes}
      → cut_at x y s ≡ some (l, r)
      → cut_at x y (s ++ t) ≡ some (l, r ++ t)
  unfolding cut_at
  cut_at-append [] t h = cc
  cut_at-append (c ∷ []) t h = cc
  cut_at-append (c ∷ d ∷ rest) t h = elim (Option-cases (cut_at x y (d ∷ rest))) [
    | inl e ↦ ground (arith, h, e)
    | inr ((l', r'), e) ↦ ground (arith, h, e, cut_at-append (d ∷ rest) t e)
  ]

  -- A text with no separator, followed by one, is cut there.
  pub cut_at-frame :
      (l r : Bytes)
      → (x == y) ≡ false
      → cut_at x y l ≡ none
      → cut_at x y (l ++ (x ∷ y ∷ r)) ≡ some (l, r)
  unfolding cut_at
  cut_at-frame [] r n h = ground arith
  cut_at-frame (c ∷ []) r n h = ground arith
  cut_at-frame (c ∷ d ∷ l) r n h = elim (Option-cases (cut_at x y (d ∷ l))) [
    | inl e ↦ ground (arith, h, e, cut_at-frame (d ∷ l) r n e)
    | inr ((l', r'), e) ↦ ground (arith, h, e)
  ]

  pub cut_at-prefix_none : (s t : Bytes) → cut_at x y (s ++ t) ≡ none → cut_at x y s ≡ none
  cut_at-prefix_none s t h = elim (Option-cases (cut_at x y s)) [
    | inl e ↦ e
    | inr ((l, r), e) ↦ cc (cut_at-append s t e)
  ]

  -- Input with no separator reaches at most one byte into the separator that completes it.
  pub cut_at-tail_le :
      (s t : Bytes) {l r : Bytes}
      → cut_at x y s ≡ none
      → cut_at x y (s ++ t) ≡ some (l, r)
      → length s ≤ length l + 1
  unfolding cut_at
  cut_at-tail_le [] t n h = omega arith
  cut_at-tail_le (c ∷ []) t n h = omega arith
  cut_at-tail_le (c ∷ d ∷ s) t n h = elim (Option-cases (cut_at x y (d ∷ s ++ t))) [
    | inl e ↦ ground (arith, n, h, e)
    | inr ((l', r'), e) ↦ elim (Option-cases (cut_at x y (d ∷ s))) [
      | inl m ↦ ground (arith, n, h, e, m, cut_at-tail_le (d ∷ s) t m e)
      | inr ((l'', r''), m) ↦ ground (arith, n, m)
    ]
  ]

  -- The rest of the input is at least two bytes shorter.
  pub cut_at-length :
      (s : Bytes) {l r : Bytes} → cut_at x y s ≡ some (l, r) → length s ≡ length l + length r + 2
  unfolding cut_at
  cut_at-length [] h = cc
  cut_at-length (c ∷ []) h = cc
  cut_at-length (c ∷ d ∷ rest) h = elim (Option-cases (cut_at x y (d ∷ rest))) [
    | inl e ↦ ground (arith, h, e)
    | inr ((l', r'), e) ↦ ground (arith, h, e, cut_at-length (d ∷ rest) e)
  ]
