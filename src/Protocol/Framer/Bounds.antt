-- ===== src/Protocol/Framer/Bounds.antt =====
-- What holds of a framer between two calls of `Push`, and of every line it hands out.
use rfid_middleware_idro900e.Prelude.{
  ℕ, zero, suc, ◌≤◌, ◌<◌, ◌≡◌, ◌∙◌, refl, List, [], ◌∷◌, ◌++◌, none, inl, inr, arith, Bytes, length,
  All, All-append, Option-cases,
}
use rfid_middleware_idro900e.Prelude.Int.{ℤ, pos, negsuc}
use rfid_middleware_idro900e.Protocol.Cut.{cut_at, cut_at-left_none, cut_at-length}
use rfid_middleware_idro900e.Protocol.Framer.{
  cr, lf, cut_crlf, FrameResult, Framer, new_framer, limit_of, overflow, take_line, scan, no_lines,
  push, push_all,
}

-- The buffer holds no delimiter and stays within the limit, which is not zero.
pub record IsSettled (f : Framer) : Type 0 where
  pub no_frame : cut_crlf f.buf ≡ none
  pub bounded : length f.buf ≤ f.max_line
  pub limit_pos : 0 < f.max_line

abbrev pub IsLine : ℕ → Bytes → Type 0
IsLine m line = (cut_crlf line ≡ none) × (length line ≤ m)

pub new_framer-IsSettled : (m : ℤ) → IsSettled (new_framer m)
unfolding cut_at
new_framer-IsSettled (pos zero) = record {
  no_frame = refl;
  bounded = omega arith;
  limit_pos = omega arith;
}
new_framer-IsSettled (pos (suc n)) = record {
  no_frame = refl;
  bounded = omega arith;
  limit_pos = omega arith;
}
new_framer-IsSettled (negsuc n) = record {
  no_frame = refl;
  bounded = omega arith;
  limit_pos = omega arith;
}

overflow-IsSettled : (f : Framer) → cut_crlf f.buf ≡ none → 0 < f.max_line → IsSettled (overflow f)
unfolding overflow cut_at
overflow-IsSettled f h p = record {
  no_frame = ground arith;
  bounded = ground arith;
  limit_pos = ground arith;
}

max_line-overflow : (f : Framer) → (overflow f).max_line ≡ f.max_line
unfolding overflow
max_line-overflow f = ground arith

max_line-take_line :
    (f : Framer) (res : FrameResult) (line rest : Bytes)
    → (take_line f res line rest).0.max_line ≡ f.max_line
unfolding take_line
max_line-take_line f res line rest = ground arith

buf-take_line :
    (f : Framer) (res : FrameResult) (line rest : Bytes) → (take_line f res line rest).0.buf ≡ rest
unfolding take_line
buf-take_line f res line rest = ground arith

lines-take_line :
    (f : Framer) (res : FrameResult) (line rest : Bytes)
    → cut_crlf line ≡ none
    → All (IsLine f.max_line) res.lines
    → All (IsLine f.max_line) (take_line f res line rest).1.lines
unfolding take_line
lines-take_line f res line rest c h =
    ground (arith, All-append (IsLine f.max_line) res.lines (line ∷ []) h)

scan-IsSettled :
    (n : ℕ) (f : Framer) (res : FrameResult)
    → length f.buf < n
    → 0 < f.max_line
    → IsSettled (scan n f res).0 × ((scan n f res).0.max_line ≡ f.max_line)
unfolding scan
scan-IsSettled zero f res m p = elim m [ ]
scan-IsSettled (suc n) f res m p = elim (Option-cases (cut_crlf f.buf)) [
  | inl e ↦ ground (arith, e, overflow-IsSettled f e p, max_line-overflow f)
  | inr ((line, rest), e) ↦ ground (
    arith,
    e,
    cut_at-length cr lf f.buf e,
    max_line-take_line f res line rest,
    buf-take_line f res line rest,
    scan-IsSettled n (take_line f res line rest).0 (take_line f res line rest).1,
  )
]

scan-lines :
    (n : ℕ) (f : Framer) (res : FrameResult)
    → All (IsLine f.max_line) res.lines
    → All (IsLine f.max_line) (scan n f res).1.lines
unfolding scan
scan-lines zero f res h = h
scan-lines (suc n) f res h = elim (Option-cases (cut_crlf f.buf)) [
  | inl e ↦ rw (e, scan) h
  | inr ((line, rest), e) ↦
      rw (e, scan)
        (rw max_line-take_line at (
          scan-lines n (take_line f res line rest).0 (take_line f res line rest).1 (
            rw max_line-take_line
              (lines-take_line f res line rest (cut_at-left_none cr lf f.buf e) h))))
]

-- After any chunk the buffer is settled again, under the same limit, and every line handed out is
-- free of delimiters and within the limit.
pub push-IsSettled :
    (f : Framer) (chunk : Bytes)
    → IsSettled f
    → IsSettled (push f chunk).0
      × ((push f chunk).0.max_line ≡ f.max_line)
      × All (IsLine f.max_line) (push f chunk).1.lines
unfolding push
push-IsSettled f chunk h =
    let g = record f { buf = f.buf ++ chunk } in
    let (settled, limit) =
      scan-IsSettled (suc (length g.buf)) g no_lines (omega arith) h.limit_pos in
    (settled, limit, scan-lines (suc (length g.buf)) g no_lines tt)

-- The same after any sequence of chunks.
push_all-IsSettled :
    (f : Framer) (chunks : List Bytes)
    → IsSettled f
    → IsSettled (push_all f chunks).0
      × ((push_all f chunks).0.max_line ≡ f.max_line)
      × All (IsLine f.max_line) (push_all f chunks).1.lines
unfolding push_all
push_all-IsSettled f [] h = (h, refl, tt)
push_all-IsSettled f (c ∷ cs) h =
    let (settled, limit, lines) = push-IsSettled f c h in
    let (settled', limit', lines') = push_all-IsSettled (push f c).0 cs settled in
    (
      settled',
      limit' ∙ limit,
      All-append (IsLine f.max_line) (push f c).1.lines _ lines (rw limit at lines'),
    )

-- Whatever limit a framer is made with and whatever chunks arrive, the buffer between two chunks
-- holds no delimiter and at most the limit, and every line handed out has no delimiter in it and is
-- within the limit.
pub framer_safe :
    (m : ℤ) (chunks : List Bytes)
    → IsSettled (push_all (new_framer m) chunks).0
      × All (IsLine (limit_of m)) (push_all (new_framer m) chunks).1.lines
framer_safe m chunks =
    let (settled, _, lines) = push_all-IsSettled (new_framer m) chunks (new_framer-IsSettled m) in
    (settled, lines)
