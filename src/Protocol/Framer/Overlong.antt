-- ===== src/Protocol/Framer/Overlong.antt =====
-- Frames at and over the limit: where the framer forgets input, and how it finds the next frame.
use mathlib.Core.List.{append-nil}
use rfid_middleware_idro900e.Prelude.{
  ℕ, zero, suc, ◌≤◌, ◌<◌, ◌≡◌, ◌∙◌, refl, ap, true, List, [], ◌∷◌, ◌++◌, some, none, inl, inr,
  arith, Bytes, length, length-append, All, Option-cases, Bool-cases, ◌==◌, if◌then◌else◌,
}
use rfid_middleware_idro900e.Protocol.Cut.{cut_at, cut_at-length}
use rfid_middleware_idro900e.Protocol.Framer.{
  cr, lf, cut_crlf, Framer, FrameResult, overflow, ends_in, take_line, scan, no_lines, push,
  push_all,
}
use rfid_middleware_idro900e.Protocol.Framer.Frames.{
  unframe, IsShort, ready, overflow-ready, take_line-ready, cut-unframe, scan-unframe,
}

-- What is left of input without a delimiter that is over the limit.
abbrev pub keep : Bytes → Bytes
keep s = if ends_in cr s then cr ∷ [] else []

abbrev pub skipping : ℕ → Bytes → Framer
skipping m buf = record { buf = buf; max_line = m; dropping = true }

cut-concat_cr : (l : Bytes) → cut_crlf l ≡ none → cut_crlf (l ++ cr ∷ []) ≡ none
unfolding cut_at
cut-concat_cr [] h = refl
cut-concat_cr (c ∷ []) h = ground arith
cut-concat_cr (c ∷ d ∷ l) h = elim (Option-cases (cut_crlf (d ∷ l))) [
  | inl e ↦ ground (arith, h, cut-concat_cr (d ∷ l) e)
  | inr ((l', r), e) ↦ ground (arith, h, e)
]

ends_in-concat_cr : (l : Bytes) → ends_in cr (l ++ cr ∷ []) ≡ true
ends_in-concat_cr [] = refl
ends_in-concat_cr (c ∷ []) = refl
ends_in-concat_cr (c ∷ d ∷ l) = ends_in-concat_cr (d ∷ l)

scan-empty : (n m : ℕ) (res : FrameResult) → 0 < n → scan n (ready m []) res ≡ (ready m [], res)
unfolding scan cut_at
scan-empty zero m res h = elim h [ ]
scan-empty (suc n) m res h = ground (arith, overflow-ready m [])

push-line :
    (m : ℕ) (l : Bytes)
    → cut_crlf l ≡ none
    → length l ≤ m
    → push (ready m []) (l ++ cr ∷ lf ∷ []) ≡ (ready m [], record { lines = l ∷ []; dropped = 0 })
unfolding push scan cut_at
push-line m l c h =
    rw (cut-unframe l [] c, scan)
      (rw (take_line-ready m (l ++ cr ∷ lf ∷ []) l [] no_lines h)
        (scan-empty _ m _ (omega (arith, length-append l (cr ∷ lf ∷ [])))))

push-over :
    (m : ℕ) (s : Bytes)
    → cut_crlf s ≡ none
    → m < length s
    → push (ready m []) s ≡ (skipping m (keep s), no_lines)
unfolding push scan overflow
push-over m s c h = rw (c, scan) (ground arith)

push-skip_lf :
    (m : ℕ)
    → push (skipping m (cr ∷ [])) (lf ∷ []) ≡ (ready m [], record { lines = []; dropped = 1 })
unfolding push scan take_line cut_at
push-skip_lf m = ground (arith, overflow-ready m [])

keep-concat_cr : (l : Bytes) → keep (l ++ cr ∷ []) ≡ cr ∷ []
keep-concat_cr l = rw (ends_in-concat_cr l)

-- A line of exactly the limit is handed out if it comes in one chunk with its delimiter, and is
-- dropped as too long if the chunk ends between the CR and the LF.
pub limit_depends_on_chunks :
    (m : ℕ) (l : Bytes)
    → cut_crlf l ≡ none
    → length l ≡ m
    → (push_all (ready m []) ((l ++ cr ∷ lf ∷ []) ∷ [])
        ≡ (ready m [], record { lines = l ∷ []; dropped = 0 }))
      × (push_all (ready m []) ((l ++ cr ∷ []) ∷ (lf ∷ []) ∷ [])
          ≡ (ready m [], record { lines = []; dropped = 1 }))
unfolding push_all
limit_depends_on_chunks m l c h = (ground (arith, push-line m l c), two)
  where
    long : push (ready m []) (l ++ cr ∷ []) ≡ (skipping m (cr ∷ []), no_lines)
    long =
        push-over m (l ++ cr ∷ []) (cut-concat_cr l c) (omega (arith, length-append l (cr ∷ [])))
        ∙ ap (λ b. (skipping m b, no_lines)) (keep-concat_cr l)

    two :
        push_all (ready m []) ((l ++ cr ∷ []) ∷ (lf ∷ []) ∷ [])
        ≡ (ready m [], record { lines = []; dropped = 1 })
    two = rw long (rw (push-skip_lf m))

-- What the framer keeps of forgotten input completes the same delimiter.
cut-keep :
    (s t : Bytes) {l r : Bytes}
    → cut_crlf s ≡ none
    → cut_crlf (s ++ t) ≡ some (l, r)
    → (l' : Bytes) × (cut_crlf (keep s ++ t) ≡ some (l', r))
unfolding cut_at
cut-keep [] t {l} c h = (l, h)
cut-keep (x ∷ []) [] c h = cc
cut-keep (x ∷ []) (y ∷ t) {l} c h = elim (Bool-cases (x == cr)) [
  | inl e ↦ (l, ground (arith, e, h))
  | inr e ↦ elim (Option-cases (cut_crlf (y ∷ t))) [
    | inl n ↦ absurd (ground (arith, e, h, n))
    | inr ((l', r'), n) ↦ (l', ground (arith, e, h, n))
  ]
]
cut-keep (x ∷ y ∷ s) t c h = elim (Option-cases (cut_crlf (y ∷ s ++ t))) [
  | inl e ↦ absurd (ground (arith, c, h, e))
  | inr ((l', r'), e) ↦
      let (l'', k) = cut-keep (y ∷ s) t (ground (arith, c, h)) e in
      (l'', k ∙ ground (arith, c, h, e))
]

push-skip :
    (m : ℕ) (held t l : Bytes) (lines : List Bytes) (tail : Bytes)
    → cut_crlf (held ++ t) ≡ some (l, unframe lines tail)
    → All (IsShort m) lines
    → cut_crlf tail ≡ none
    → length tail ≤ m
    → push (skipping m held) t ≡ (ready m tail, record { lines = lines; dropped = 1 })
unfolding push scan take_line
push-skip m held t l lines tail cut a k f =
    rw (cut, scan)
      (scan-unframe (length (held ++ t)) m lines tail (record { lines = []; dropped = 1 })
        (omega (arith, cut_at-length cr lf (held ++ t) cut)) a k f)

-- A line that grows over the limit before its delimiter arrives is dropped, once, and the frames
-- behind it are handed out as if it had not been there: `s` is the first chunk, over the limit and
-- with no delimiter, and the second chunk ends the line `l` and brings short lines and a rest.
pub overlong_recovers :
    (m : ℕ) (s t l : Bytes) (lines : List Bytes) (tail : Bytes)
    → cut_crlf s ≡ none
    → m < length s
    → s ++ t ≡ l ++ (cr ∷ lf ∷ unframe lines tail)
    → cut_crlf l ≡ none
    → All (IsShort m) lines
    → cut_crlf tail ≡ none
    → length tail ≤ m
    → push_all (ready m []) (s ∷ t ∷ []) ≡ (ready m tail, record { lines = lines; dropped = 1 })
unfolding push_all
overlong_recovers m s t l lines tail c h e n a k f =
    let (l', cut) =
      cut-keep s t {l = l} {r = unframe lines tail} c
        (rw e (cut-unframe l (unframe lines tail) n)) in
    rw (push-over m s c h)
      (rw (push-skip m (keep s) t l' lines tail cut a k f) (rw (append-nil lines)))
