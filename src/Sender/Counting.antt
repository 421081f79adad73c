-- ===== src/Sender/Counting.antt =====
-- Weights of the rows of a queue, and what lowers their sum.
use mathlib.Core.List.Memᴰ.{not-nil}
use mathlib.Core.Path.{subst}
use rfid_middleware_idro900e.Prelude.{
  ℕ, ◌+◌, ◌*◌, ◌≤◌, ◌<◌, Bool, false, List, [], ◌∷◌, map, ◌≡◌, ◌≢◌, ap, arith, Memᴰ, select, count,
  All, All-weaken, mem_of_All, if◌then◌else◌, Bool-cases, inl, inr,
}
use rfid_middleware_idro900e.Store.{Row}
use rfid_middleware_idro900e.Store.Invariant.{Ordered}

abbrev pub load : (Row → ℕ) → List Row → ℕ
load m [] = 0
load m (q ∷ rs) = m q + load m rs

-- Where no row weighs more than `k` unless it is counted.
pub load-le-count :
    (m : Row → ℕ) (p : Row → Bool) (k : ℕ)
    → ((q : Row) → m q ≤ (if p q then k else 0))
    → (rs : List Row) → load m rs ≤ count p rs * k
load-le-count m p k h [] = omega arith
load-le-count m p k h (q ∷ rs) = elim (Bool-cases (p q)) [
  | inl t ↦ rw t (omega (arith, here t, load-le-count m p k h rs))
  | inr t ↦ rw t (omega (arith, here t, load-le-count m p k h rs))
]
  where
    here : {b : Bool} → p q ≡ b → m q ≤ (if b then k else 0)
    here e = subst (λ (c : Bool). m q ≤ (if c then k else 0)) e (h q)

module _ (m m' : Row → ℕ) (f : Row → Row) where
  load-map-le : (rs : List Row) → All (λ q. m' (f q) ≤ m q) rs → load m' (map f rs) ≤ load m rs
  load-map-le [] h = omega arith
  load-map-le (q ∷ rs) h = omega (arith, h.0, load-map-le rs h.1)

  -- One row weighs `k` less, and those with other identifiers no more.
  pub load-map-lt :
      (d k : ℕ) (r : Row) (rs : List Row)
      → ((q : Row) → q.id ≢ r.id → m' (f q) ≤ m q)
      → Ordered d rs
      → Memᴰ r rs
      → m' (f r) + k ≤ m r
      → load m' (map f rs) + k ≤ load m rs
  load-map-lt d k r [] le o h l = absurd (not-nil h)
  load-map-lt d k r (q ∷ rs) le o (Memᴰ.head e) l =
      let l' : m' (f q) + k ≤ m q = subst (λ x. m' (f x) + k ≤ m x) e l in
      omega (
        arith,
        l',
        load-map-le rs (
            All-weaken _ _ rs (λ x b. le x (λ i. omega (arith, b.0, i, ap (λ (y : Row). y.id) e)))
              o.0),
      )
  load-map-lt d k r (q ∷ rs) le o (Memᴰ.tail h) l =
      let q_lt : q.id < r.id = (mem_of_All _ rs r o.0 h).0 in
      omega (arith, le q (λ i. omega (arith, i, q_lt)), load-map-lt d k r rs le o.1 h l)

module _ (m m' : Row → ℕ) (keep : Row → Bool) (le : (q : Row) → m' q ≤ m q) where
  load-select-le : (rs : List Row) → load m' (select keep rs) ≤ load m rs
  load-select-le [] = omega arith
  load-select-le (q ∷ rs) = ground (arith, le q, load-select-le rs)

  pub load-select-lt :
      (k : ℕ) (r : Row) (rs : List Row)
      → Memᴰ r rs
      → keep r ≡ false
      → k ≤ m r
      → load m' (select keep rs) + k ≤ load m rs
  load-select-lt k r [] h n l = absurd (not-nil h)
  load-select-lt k r (q ∷ rs) (Memᴰ.head e) n l =
      let n' : keep q ≡ false = subst (λ x. keep x ≡ false) e n in
      let l' : k ≤ m q = subst (λ x. k ≤ m x) e l in ground (arith, n', l', load-select-le rs)
  load-select-lt k r (q ∷ rs) (Memᴰ.tail h) n l = ground (arith, le q, load-select-lt k r rs h n l)
