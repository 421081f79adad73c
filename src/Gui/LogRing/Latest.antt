-- ===== src/Gui/LogRing/Latest.antt =====
-- Which lines the ring hands out: internal/gui/logring.go.
use mathlib.Core.List.{append_assoc, append-nil}
use mathlib.Core.Path.{subst}
use rfid_middleware_idro900e.Prelude.{
  ℕ, zero, suc, ◌+◌, ◌-◌, ◌≤◌, ◌<◌, true, false, List, [], ◌∷◌, ◌++◌, leb, Bytes, length, drop,
  length-append, length-drop, ◌≡◌, refl, sym, ap, ◌∙◌, arith, Bool-cases, inl, inr,
}
use rfid_middleware_idro900e.Gui.LogRing.{LogRing, write, write_all, drain}

drop-append : (n : ℕ) (xs ys : List Bytes) → n ≤ length xs → drop n (xs ++ ys) ≡ drop n xs ++ ys
drop-append zero xs ys h = refl
drop-append (suc n) [] ys h = elim h [ ]
drop-append (suc n) (x ∷ xs) ys h = drop-append n xs ys (omega arith)

drop_more : (n : ℕ) (xs : List Bytes) → drop 1 (drop n xs) ≡ drop (suc n) xs
drop_more zero xs = refl
drop_more (suc n) [] = refl
drop_more (suc n) (x ∷ xs) = drop_more n xs

-- The ring after the lines `seen` since it was empty; `lost` were dropped before.
record Holds (seen : List Bytes) (lost : ℕ) (r : LogRing) : Type 0 where
  room : 0 < r.cap
  latest : r.buf ≡ drop (length seen - r.cap) seen
  counted : r.dropped ≡ lost + (length seen - r.cap)

module _ (seen : List Bytes) (lost : ℕ) (line : Bytes) (r : LogRing) (h : Holds seen lost r) where
  size : length r.buf ≡ length seen - (length seen - r.cap)
  size = ap length h.latest ∙ length-drop (length seen - r.cap) seen

  one_more : length (seen ++ line ∷ []) ≡ length seen + 1
  one_more = omega (arith, length-append seen (line ∷ []))

  full_latest :
      r.cap ≤ length r.buf
      → drop 1 r.buf ++ line ∷ [] ≡ drop (length (seen ++ line ∷ []) - r.cap) (seen ++ line ∷ [])
  full_latest f =
      ap (λ (x : List Bytes). drop 1 x ++ line ∷ []) h.latest
      ∙ ap (λ (x : List Bytes). x ++ line ∷ []) (drop_more (length seen - r.cap) seen)
      ∙ sym (drop-append (suc (length seen - r.cap)) seen (line ∷ []) (omega (arith, size, h.room)))
      ∙ ap (λ (k : ℕ). drop k (seen ++ line ∷ [])) next
    where
      next : suc (length seen - r.cap) ≡ length (seen ++ line ∷ []) - r.cap
      next = omega (arith, size, one_more, h.room, f)

  roomy_latest :
      length r.buf < r.cap
      → r.buf ++ line ∷ [] ≡ drop (length (seen ++ line ∷ []) - r.cap) (seen ++ line ∷ [])
  roomy_latest f =
      ap (λ (x : List Bytes). x ++ line ∷ []) (h.latest ∙ ap (λ (k : ℕ). drop k seen) small)
      ∙ ap (λ (k : ℕ). drop k (seen ++ line ∷ [])) none_yet
    where
      small : length seen - r.cap ≡ 0
      small = omega (arith, size, f)

      none_yet : 0 ≡ length (seen ++ line ∷ []) - r.cap
      none_yet = omega (arith, size, one_more, f)

  write-Holds : Holds (seen ++ line ∷ []) lost (write line r)
  unfolding write
  write-Holds = elim (Bool-cases (leb r.cap (length r.buf))) [
    | inl t ↦ rw t (record {
      room = h.room;
      latest = full_latest (ground (arith, t));
      counted = omega (arith, size, one_more, h.counted, h.room, full t);
    })
    | inr t ↦ rw t (record {
      room = h.room;
      latest = roomy_latest (ground (arith, t));
      counted = omega (arith, size, one_more, h.counted, roomy t);
    })
  ]
    where
      full : leb r.cap (length r.buf) ≡ true → r.cap ≤ length r.buf
      full t = ground (arith, t)

      roomy : leb r.cap (length r.buf) ≡ false → length r.buf < r.cap
      roomy t = ground (arith, t)

write_all-Holds :
    (seen lines : List Bytes) (lost : ℕ) (r : LogRing)
    → Holds seen lost r
    → Holds (seen ++ lines) lost (write_all lines r)
unfolding write_all
write_all-Holds seen [] lost r h = rw (append-nil seen) h
write_all-Holds seen (l ∷ ls) lost r h =
    subst (λ (x : List Bytes). Holds x lost (write_all ls (write l r)))
      (append_assoc seen (l ∷ []) ls)
      (write_all-Holds (seen ++ l ∷ []) ls lost (write l r) (write-Holds seen lost l r h))

write_all-cap : (lines : List Bytes) (r : LogRing) → (write_all lines r).cap ≡ r.cap
unfolding write_all write
write_all-cap [] r = refl
write_all-cap (l ∷ ls) r = ground (arith, write_all-cap ls (write l r))

nothing : (c : ℕ) → ◌≡◌ {A = List Bytes} [] (drop (0 - c) [])
nothing c = ap (λ (k : ℕ). drop {A = Bytes} k []) zero_less
  where
    zero_less : 0 ≡ 0 - c
    zero_less = omega arith

-- A ring of any capacity that was drained and then took lines hands out the latest of them, as many as it has room for, in their order; those
-- before are counted as dropped.
pub drain_latest :
    (lines : List Bytes) (r : LogRing)
    → 0 < r.cap
    → ((drain (write_all lines (drain r).0)).1 ≡ drop (length lines - r.cap) lines)
      × ((write_all lines (drain r).0).dropped ≡ r.dropped + (length lines - r.cap))
unfolding drain
drain_latest lines r c =
    let empty = record r { buf = [] } in
    let h =
      write_all-Holds [] lines r.dropped empty
        (record { room = c; latest = nothing r.cap; counted = omega arith }) in
    let e = write_all-cap lines empty in
    (
      h.latest ∙ ap (λ (k : ℕ). drop (length lines - k) lines) e,
      h.counted ∙ ap (λ (k : ℕ). r.dropped + (length lines - k)) e,
    )
