-- ===== src/Protocol/Hex.antt =====
-- Hexadecimal digits: `isHexBytes`, `upperHex` of parser.go, `strconv.ParseUint(s, 16, 16)`, and the
-- cast to int16.
use rfid_middleware_idro900e.Prelude.{
  ℕ, ◌+◌, ◌-◌, ◌*◌, ◌≤◌, ◌<◌, ◌≡◌, ◌∙◌, ap, ◌⊎◌, Bool, true, false, ◌&&◌, ◌||◌, [], ◌∷◌, Option,
  none, some, map, ltb, leb, if◌then◌else◌, Bytes, length, all, arith,
}
use rfid_middleware_idro900e.Prelude.Int.{ℤ, pos, negsuc}

abbrev pub within : ℕ → ℕ → ℕ → Bool
within lo hi c = leb lo c && leb c hi

unfoldable pub is_hex : ℕ → Bool
is_hex c = within b'0' b'9' c || within b'a' b'f' c || within b'A' b'F' c

unfoldable pub is_hex_bytes : Bytes → Bool
is_hex_bytes [] = false
is_hex_bytes (c ∷ cs) = all is_hex (c ∷ cs)

unfoldable pub upper : ℕ → ℕ
upper c = if within b'a' b'f' c then c - (b'a' - b'A') else c

unfoldable pub upper_hex : Bytes → Bytes
upper_hex = map upper

-- One digit's value; `none` is a syntax error.
unfoldable pub digit_value : ℕ → Option ℕ
digit_value c =
    if within b'0' b'9' c
    then some (c - b'0')
    else if within b'a' b'f' c
    then some (c - b'a' + 10)
    else if within b'A' b'F' c
    then some (c - b'A' + 10)
    else none

unfoldable pub hex_from : ℕ → Bytes → Option ℕ
hex_from n [] = some n
hex_from n (c ∷ cs) = elim (digit_value c) [ none ↦ none | some d ↦ hex_from (n * 16 + d) cs ]

-- No digits, a byte that is none, and a value over 16 bits are errors.
unfoldable pub parse_uint16 : Bytes → Option ℕ
parse_uint16 [] = none
parse_uint16 (c ∷ cs) = elim (hex_from 0 (c ∷ cs)) [
  | none ↦ none
  | some u ↦ if ltb 65535 u then none else some u
]

-- `int16(u)`: the upper half of the range is negative.
unfoldable pub int16 : ℕ → ℤ
int16 u = if ltb u 32768 then pos u else negsuc (65536 - u - 1)

abbrev pub IsUpperHex : ℕ → Type 0
IsUpperHex c = ((b'0' ≤ c) × (c ≤ b'9')) ⊎ ((b'A' ≤ c) × (c ≤ b'F'))

pub upper-IsUpperHex : (c : ℕ) → is_hex c ≡ true → IsUpperHex (upper c)
unfolding is_hex upper
upper-IsUpperHex c h = ground arith

abbrev pub digit : ℕ → ℕ
digit c =
    if within b'0' b'9' c
    then c - b'0'
    else if within b'a' b'f' c
    then c - b'a' + 10
    else c - b'A' + 10

pub digit_value-is_hex :
    (c : ℕ) → is_hex c ≡ true → (digit_value c ≡ some (digit c)) × (digit c < 16)
unfolding is_hex digit_value
digit_value-is_hex c h = ground arith

-- The number that four digits write.
abbrev pub value_of_four : ℕ → ℕ → ℕ → ℕ → ℕ
value_of_four a b c d = ((digit a * 16 + digit b) * 16 + digit c) * 16 + digit d

hex_from-cons :
    (n c : ℕ) (cs : Bytes) → is_hex c ≡ true → hex_from n (c ∷ cs) ≡ hex_from (n * 16 + digit c) cs
unfolding hex_from
hex_from-cons n c cs h = rw ((digit_value-is_hex c h).0, hex_from)

four_digits :
    (a b c d : ℕ) → a < 16 → b < 16 → c < 16 → d < 16 → ((a * 16 + b) * 16 + c) * 16 + d < 65536
four_digits a b c d ha hb hc hd = omega arith

hex_from_of_four :
    (a b c d : ℕ)
    → (is_hex a ≡ true) × (is_hex b ≡ true) × (is_hex c ≡ true) × (is_hex d ≡ true)
    → hex_from 0 (a ∷ b ∷ c ∷ d ∷ []) ≡ some (value_of_four a b c d)
hex_from_of_four a b c d (ha, hb, hc, hd) =
    hex_from-cons 0 a _ ha
    ∙ hex_from-cons _ b _ hb
    ∙ hex_from-cons _ c _ hc
    ∙ hex_from-cons _ d _ hd
    ∙ last
  where
    last :
        hex_from ((((0 * 16 + digit a) * 16 + digit b) * 16 + digit c) * 16 + digit d) []
        ≡ some (value_of_four a b c d)
    last = unfold hex_from in ap some (omega arith)

pub uint16_of_four :
    (a b c d : ℕ)
    → (is_hex a ≡ true) × (is_hex b ≡ true) × (is_hex c ≡ true) × (is_hex d ≡ true)
    → (parse_uint16 (a ∷ b ∷ c ∷ d ∷ []) ≡ some (value_of_four a b c d))
      × (value_of_four a b c d < 65536)
unfolding parse_uint16
uint16_of_four a b c d h =
    let small : value_of_four a b c d < 65536 =
      four_digits (digit a) (digit b) (digit c) (digit d) (digit_value-is_hex a h.0).1
        (digit_value-is_hex b h.1).1 (digit_value-is_hex c h.2).1 (digit_value-is_hex d h.3).1 in
    (rw (hex_from_of_four a b c d h, parse_uint16) (ground arith), small)

pub parse_uint16-lt : (s : Bytes) {u : ℕ} → parse_uint16 s ≡ some u → u < 65536
unfolding parse_uint16
parse_uint16-lt [] h = cc
parse_uint16-lt (c ∷ cs) h = ground arith

-- Four digits always fit: the error branch behind the length test is dead.
pub parse_uint16-total :
    (s : Bytes)
    → length s ≡ 4
    → is_hex_bytes s ≡ true
    → (u : ℕ) × (parse_uint16 s ≡ some u) × (u < 65536)
unfolding is_hex_bytes parse_uint16
parse_uint16-total (a ∷ b ∷ c ∷ d ∷ []) l h =
    let both = uint16_of_four a b c d (ground arith) in (value_of_four a b c d, both.0, both.1)
parse_uint16-total [] l h = absurd (omega arith)
parse_uint16-total (a ∷ []) l h = absurd (omega arith)
parse_uint16-total (a ∷ b ∷ []) l h = absurd (omega arith)
parse_uint16-total (a ∷ b ∷ c ∷ []) l h = absurd (omega arith)
parse_uint16-total (a ∷ b ∷ c ∷ d ∷ e ∷ s) l h = absurd (omega arith)

-- The cast is exact: within 16 signed bits, and the same number modulo 2 ^ 16.
abbrev pub IsInt16 : ℤ → Type 0
IsInt16 (pos n) = n < 32768
IsInt16 (negsuc n) = n < 32768

pub int16-IsInt16 : (u : ℕ) → u < 65536 → IsInt16 (int16 u)
unfolding int16
int16-IsInt16 u h = ground arith
