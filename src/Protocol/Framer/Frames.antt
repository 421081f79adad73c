-- ===== src/Protocol/Framer/Frames.antt =====
-- The framer restores the lines of a stream, however TCP cuts it into chunks.
use mathlib.Core.List.{flatten, append_assoc, append-nil}
use rfid_middleware_idro900e.Prelude.{
  ℕ, zero, suc, ◌≤◌, ◌<◌, ◌≡◌, ◌∙◌, sym, refl, ap, false, List, [], ◌∷◌, ◌++◌, some, none, inl, inr,
  arith, Bytes, length, length-append, All, Option-cases,
}
use rfid_middleware_idro900e.Protocol.Cut.{
  cut_at, cut_at-splits, cut_at-append, cut_at-frame, cut_at-prefix_none, cut_at-tail_le,
}
use rfid_middleware_idro900e.Protocol.Framer.{
  cr, lf, cut_crlf, FrameResult, Framer, overflow, take_line, scan, no_lines, push, push_all,
}

-- Lines, each with its delimiter, and an unfinished rest: what a reader sends.
abbrev pub unframe : List Bytes → Bytes → Bytes
unframe [] tail = tail
unframe (l ∷ ls) tail = l ++ (cr ∷ lf ∷ unframe ls tail)

-- A line that leaves room for the CR behind it.
abbrev pub IsShort : ℕ → Bytes → Type 0
IsShort m line = (cut_crlf line ≡ none) × (length line < m)

abbrev pub ready : ℕ → Bytes → Framer
ready m buf = record { buf = buf; max_line = m; dropping = false }

pub overflow-ready : (m : ℕ) (buf : Bytes) → length buf ≤ m → overflow (ready m buf) ≡ ready m buf
unfolding overflow
overflow-ready m buf h = ground arith

pub take_line-ready :
    (m : ℕ) (buf line rest : Bytes) (res : FrameResult)
    → length line ≤ m
    → take_line (ready m buf) res line rest
      ≡ (ready m rest, record { lines = res.lines ++ line ∷ []; dropped = res.dropped })
unfolding take_line
take_line-ready m buf line rest res h = ground arith

pub cut-unframe :
    (l : Bytes) (rest : Bytes)
    → cut_crlf l ≡ none
    → cut_crlf (l ++ (cr ∷ lf ∷ rest)) ≡ some (l, rest)
cut-unframe l rest h = cut_at-frame cr lf l rest refl h

-- One pass over a buffer of short lines and a rest.
pub scan-unframe :
    (n m : ℕ) (lines : List Bytes) (tail : Bytes) (res : FrameResult)
    → length (unframe lines tail) < n
    → All (IsShort m) lines
    → cut_crlf tail ≡ none
    → length tail ≤ m
    → scan n (ready m (unframe lines tail)) res
      ≡ (ready m tail, record { lines = res.lines ++ lines; dropped = res.dropped })
unfolding scan
scan-unframe zero m lines tail res f a c t = elim f [ ]
scan-unframe (suc n) m [] tail res f a c t =
    rw (c, scan) (ground (arith, overflow-ready m tail t, append-nil res.lines))
scan-unframe (suc n) m (l ∷ ls) tail res f a c t =
    rw (cut-unframe l (unframe ls tail) a.0.0, scan)
      (rw (take_line-ready m (unframe (l ∷ ls) tail) l (unframe ls tail) res (omega arith)) (
        scan-unframe n m ls tail _ (omega (arith, length-append l (cr ∷ lf ∷ unframe ls tail))) a.1
          c t
        ∙ rw append_assoc))

pub push-unframe :
    (m : ℕ) (held chunk : Bytes) (lines : List Bytes) (tail : Bytes)
    → held ++ chunk ≡ unframe lines tail
    → All (IsShort m) lines
    → cut_crlf tail ≡ none
    → length tail ≤ m
    → push (ready m held) chunk ≡ (ready m tail, record { lines = lines; dropped = 0 })
unfolding push
push-unframe m held chunk lines tail e a c t =
    rw e
      (scan-unframe (suc (length (unframe lines tail))) m lines tail no_lines (omega arith) a c t)

-- A stream of short lines, cut into two parts anywhere.
record Split (m : ℕ) (s rest : Bytes) (lines : List Bytes) (tail : Bytes) : Type 0 where
  now : List Bytes
  later : List Bytes
  held : Bytes
  lines_eq : lines ≡ now ++ later
  now_eq : s ≡ unframe now held
  later_eq : held ++ rest ≡ unframe later tail
  held_clean : cut_crlf held ≡ none
  held_le : length held ≤ m
  now_short : All (IsShort m) now
  later_short : All (IsShort m) later

module _ {m : ℕ} {rest tail : Bytes} where
  Split-held :
      (s : Bytes) (lines : List Bytes)
      → cut_crlf s ≡ none
      → s ++ rest ≡ unframe lines tail
      → All (IsShort m) lines
      → length s ≤ m
      → Split m s rest lines tail
  Split-held s lines c e a l = record {
    now = [];
    later = lines;
    held = s;
    lines_eq = refl;
    now_eq = refl;
    later_eq = e;
    held_clean = c;
    held_le = l;
    now_short = tt;
    later_short = a;
  }

  Split-cons :
      (s : Bytes) (l : Bytes) (ls : List Bytes) {r : Bytes}
      → s ≡ l ++ (cr ∷ lf ∷ r)
      → IsShort m l
      → Split m r rest ls tail
      → Split m s rest (l ∷ ls) tail
  Split-cons s l ls e h p = record {
    now = l ∷ p.now;
    later = p.later;
    held = p.held;
    lines_eq = ap (◌∷◌ l) p.lines_eq;
    now_eq = e ∙ ap (λ t. l ++ (cr ∷ lf ∷ t)) p.now_eq;
    later_eq = p.later_eq;
    held_clean = p.held_clean;
    held_le = p.held_le;
    now_short = (h, p.now_short);
    later_short = p.later_short;
  }

stream_parts :
    (m : ℕ) (s rest : Bytes) (lines : List Bytes) (tail : Bytes)
    → s ++ rest ≡ unframe lines tail
    → All (IsShort m) lines
    → cut_crlf tail ≡ none
    → length tail ≤ m
    → Split m s rest lines tail
stream_parts m s rest [] tail e a c t =
    Split-held s [] (cut_at-prefix_none cr lf s rest (rw e c)) e tt
      (omega (arith, ap length e, length-append s rest))
stream_parts m s rest (l ∷ ls) tail e a c t =
    let whole : cut_crlf (s ++ rest) ≡ some (l, unframe ls tail) =
      rw e (cut-unframe l (unframe ls tail) a.0.0) in
    elim (Option-cases (cut_crlf s)) [
      | inl n ↦
          Split-held s (l ∷ ls) n e a (omega (arith, cut_at-tail_le cr lf s rest n whole, a.0.1))
      | inr ((l', r), f) ↦
          let both = cut_at-append cr lf s rest f in
          let same : l' ≡ l = cc (both, whole) in
          let later : r ++ rest ≡ unframe ls tail = cc (both, whole) in
          Split-cons s l ls (rw same at (cut_at-splits cr lf s f)) a.0
            (stream_parts m r rest ls tail later a.1 c t)
    ]

push_all-unframe :
    (m : ℕ) (chunks : List Bytes) (held : Bytes) (lines : List Bytes) (tail : Bytes)
    → held ++ flatten chunks ≡ unframe lines tail
    → cut_crlf held ≡ none
    → All (IsShort m) lines
    → cut_crlf tail ≡ none
    → length tail ≤ m
    → push_all (ready m held) chunks ≡ (ready m tail, record { lines = lines; dropped = 0 })
unfolding push_all flatten
push_all-unframe m [] held [] tail e n a c t = rw (sym (append-nil held) ∙ e)
push_all-unframe m [] held (l ∷ ls) tail e n a c t =
    cc (append-nil held, e, n, cut-unframe l (unframe ls tail) a.0.0)
push_all-unframe m (chunk ∷ chunks) held lines tail e n a c t =
    let p =
      stream_parts m (held ++ chunk) (flatten chunks) lines tail (append_assoc held chunk _ ∙ e) a c
        t in
    rw (push-unframe m held chunk p.now p.held p.now_eq p.now_short p.held_clean p.held_le) (
      rw (push_all-unframe m chunks p.held p.later tail p.later_eq p.held_clean p.later_short c t)
        (ground (arith, p.lines_eq)))

-- A stream of lines that are shorter than the limit, and of an unfinished rest within it, cut into
-- chunks in any way whatever: the framer hands out exactly those lines in order, drops nothing,
-- and holds the rest.
pub push_all-restores :
    (m : ℕ) (chunks lines : List Bytes) (tail : Bytes)
    → flatten chunks ≡ unframe lines tail
    → All (IsShort m) lines
    → cut_crlf tail ≡ none
    → length tail ≤ m
    → push_all (ready m []) chunks ≡ (ready m tail, record { lines = lines; dropped = 0 })
unfolding cut_at
push_all-restores m chunks lines tail e = push_all-unframe m chunks [] lines tail e refl
