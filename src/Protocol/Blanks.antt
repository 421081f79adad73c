-- ===== src/Protocol/Blanks.antt =====
-- `bytes.TrimSpace` and `bytes.TrimRight(s, " \t")`, as parser.go uses them, and its `stripSpaces`.
use mathlib.Core.List.{reverse, map}
use rfid_middleware_idro900e.Prelude.{
  ℕ, zero, suc, Bool, true, false, ◌&&◌, ◌||◌, List, [], ◌∷◌, Option, none, some, ◌==◌, not,
  if◌then◌else◌, Bytes, length, select,
}

abbrev pub is_blank : ℕ → Bool
is_blank c = c == b' ' || c == b'\t'

unfoldable pub strip_spaces : Bytes → Bytes
strip_spaces = select (λ c. not (is_blank c))

abbrev is_nil : Bytes → Bool
is_nil [] = true
is_nil (c ∷ cs) = false

unfoldable pub trim_right_blanks : Bytes → Bytes
trim_right_blanks [] = []
trim_right_blanks (c ∷ cs) =
    let rest = trim_right_blanks cs in if is_blank c && is_nil rest then [] else c ∷ rest

-- `unicode.IsSpace`, by the UTF-8 encodings of the white-space characters. A byte that starts no
-- encoding of one is no space, broken UTF-8 included.
abbrev spaces : List Bytes
spaces =
    (0x09 ∷ [])
    ∷ (0x0a ∷ [])
    ∷ (0x0b ∷ [])
    ∷ (0x0c ∷ [])
    ∷ (0x0d ∷ [])
    ∷ (0x20 ∷ [])
    ∷ (0xc2 ∷ 0x85 ∷ [])
    ∷ (0xc2 ∷ 0xa0 ∷ [])
    ∷ (0xe1 ∷ 0x9a ∷ 0x80 ∷ [])
    ∷ (0xe2 ∷ 0x80 ∷ 0x80 ∷ [])
    ∷ (0xe2 ∷ 0x80 ∷ 0x81 ∷ [])
    ∷ (0xe2 ∷ 0x80 ∷ 0x82 ∷ [])
    ∷ (0xe2 ∷ 0x80 ∷ 0x83 ∷ [])
    ∷ (0xe2 ∷ 0x80 ∷ 0x84 ∷ [])
    ∷ (0xe2 ∷ 0x80 ∷ 0x85 ∷ [])
    ∷ (0xe2 ∷ 0x80 ∷ 0x86 ∷ [])
    ∷ (0xe2 ∷ 0x80 ∷ 0x87 ∷ [])
    ∷ (0xe2 ∷ 0x80 ∷ 0x88 ∷ [])
    ∷ (0xe2 ∷ 0x80 ∷ 0x89 ∷ [])
    ∷ (0xe2 ∷ 0x80 ∷ 0x8a ∷ [])
    ∷ (0xe2 ∷ 0x80 ∷ 0xa8 ∷ [])
    ∷ (0xe2 ∷ 0x80 ∷ 0xa9 ∷ [])
    ∷ (0xe2 ∷ 0x80 ∷ 0xaf ∷ [])
    ∷ (0xe2 ∷ 0x81 ∷ 0x9f ∷ [])
    ∷ (0xe3 ∷ 0x80 ∷ 0x80 ∷ [])
    ∷ []

drop_prefix : Bytes → Bytes → Option Bytes
drop_prefix [] s = some s
drop_prefix (p ∷ ps) [] = none
drop_prefix (p ∷ ps) (c ∷ s) = let rest = drop_prefix ps s in if p == c then rest else none

-- The text behind the first of the encodings that it starts with.
drop_one : List Bytes → Bytes → Option Bytes
unfolding drop_prefix
drop_one [] s = none
drop_one (e ∷ es) s =
    let rest = drop_one es s in elim (drop_prefix e s) [ none ↦ rest | some t ↦ some t ]

-- Each round takes a byte at least, so the length is fuel enough.
trim_front : ℕ → List Bytes → Bytes → Bytes
unfolding drop_one
trim_front zero es s = s
trim_front (suc n) es s = elim (drop_one es s) [ none ↦ s | some t ↦ trim_front n es t ]

-- At the end the encodings are met back to front.
unfoldable pub trim_space : Bytes → Bytes
unfolding trim_front
trim_space s =
    let front = trim_front (length s) spaces s in
    reverse (trim_front (length front) (map reverse spaces) (reverse front))
