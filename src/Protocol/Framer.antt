-- ===== src/Protocol/Framer.antt =====
-- internal/reader/protocol/framer.go: the buffer that restores CRLF frames from TCP chunks.
-- Bytes are numbers. A slice is a value here: `Push` copies a line before it is handed out, so
-- nothing handed out is written through the reused buffer. The proofs are in the modules below.
pub mod Bounds
pub mod Frames
pub mod Overlong
use rfid_middleware_idro900e.Prelude.{
  ℕ, zero, suc, ◌+◌, Bool, true, false, List, [], ◌∷◌, ◌++◌, some, none, ltb, ◌==◌, if◌then◌else◌,
  Bytes, length,
}
use rfid_middleware_idro900e.Prelude.Int.{ℤ, pos, negsuc}
use rfid_middleware_idro900e.Protocol.Cut.{Cut, cut_at}

abbrev pub cr : ℕ
cr = 13

abbrev pub lf : ℕ
lf = 10

-- `bytes.Index(f.buf, crlf)`, with the line before the delimiter and the bytes after it.
abbrev pub cut_crlf : Bytes → Cut
cut_crlf = cut_at cr lf

abbrev pub default_max_line : ℕ
default_max_line = 4096

pub record FrameResult : Type 0 where
  pub lines : List Bytes
  pub dropped : ℕ

pub record Framer : Type 0 where
  pub buf : Bytes
  pub max_line : ℕ
  pub dropping : Bool

-- A limit that is not positive means the default one.
abbrev pub limit_of : ℤ → ℕ
limit_of (pos zero) = default_max_line
limit_of (pos (suc n)) = suc n
limit_of (negsuc n) = default_max_line

abbrev pub new_framer : ℤ → Framer
new_framer max_line = record { buf = []; max_line = limit_of max_line; dropping = false }

abbrev pub ends_in : ℕ → Bytes → Bool
ends_in c [] = false
ends_in c (x ∷ []) = x == c
ends_in c (x ∷ y ∷ rest) = ends_in c (y ∷ rest)

-- The branch `i < 0`: without a delimiter, input over the limit is forgotten but for a last CR.
unfoldable pub overflow : Framer → Framer
overflow f =
    if ltb f.max_line (length f.buf)
    then record f { dropping = true; buf = if ends_in cr f.buf then cr ∷ [] else [] }
    else f

-- The `switch` on a complete line, and the shift of the buffer behind its delimiter.
unfoldable pub take_line : Framer → FrameResult → Bytes → Bytes → Framer × FrameResult
take_line f res line rest =
    if f.dropping
    then (record f { dropping = false; buf = rest }, record res { dropped = res.dropped + 1 })
    else if ltb f.max_line (length line)
    then (record f { buf = rest }, record res { dropped = res.dropped + 1 })
    else (record f { buf = rest }, record res { lines = res.lines ++ line ∷ [] })

-- The `for` of `Push`: each round takes a delimiter out of the buffer, so that its length and one
-- are fuel enough.
unfoldable pub scan : ℕ → Framer → FrameResult → Framer × FrameResult
scan zero f res = (f, res)
scan (suc n) f res = elim (cut_crlf f.buf) [
  | none ↦ (overflow f, res)
  | some (line, rest) ↦ let (f', res') = take_line f res line rest in scan n f' res'
]

abbrev pub no_lines : FrameResult
no_lines = record { lines = []; dropped = 0 }

unfoldable pub push : Framer → Bytes → Framer × FrameResult
push f chunk = let g = record f { buf = f.buf ++ chunk } in scan (suc (length g.buf)) g no_lines

unfoldable pub pending_tail : Framer → ℕ
pending_tail f = length f.buf

abbrev pub join : FrameResult → FrameResult → FrameResult
join a b = record { lines = a.lines ++ b.lines; dropped = a.dropped + b.dropped }

-- What a caller sees that pushes one chunk after the other.
unfoldable pub push_all : Framer → List Bytes → Framer × FrameResult
push_all f [] = (f, no_lines)
push_all f (c ∷ cs) = let (g, res) = push f c in let (h, more) = push_all g cs in (h, join res more)
