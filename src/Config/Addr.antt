-- ===== src/Config/Addr.antt =====
-- The parts of a reader's configuration that are texts: the pattern of an identifier, the token, and the address, with what
-- `validateAddr` uses of net and strconv: `SplitHostPort` and `Atoi`.
use rfid_middleware_idro900e.Prelude.{
  ℕ, zero, suc, ◌+◌, ◌-◌, ◌*◌, String, Bool, true, false, ◌&&◌, ◌||◌, [], ◌∷◌, Option, none, some,
  leb, ◌==◌, if◌then◌else◌, Bytes, codes, bytes_eq, length, all, any,
}
use rfid_middleware_idro900e.Prelude.Int.{ℤ, pos, negsuc, ltb_ℤ}

abbrev pub is_digit : ℕ → Bool
is_digit c = leb b'0' c && leb c b'9'

abbrev is_alnum : ℕ → Bool
is_alnum c = is_digit c || leb b'a' c && leb c b'z' || leb b'A' c && leb c b'Z'

abbrev is_id_code : ℕ → Bool
is_id_code c = is_alnum c || c == b'_' || c == b'-'

-- `readerIDPattern`
abbrev pub id_matches : Bytes → Bool
id_matches [] = false
id_matches (c ∷ rest) = is_alnum c && all is_id_code rest && leb (length rest) 63

-- `isHex64`; one code outside ASCII is no digit, so that the number of bytes does not matter then.
unfoldable pub is_hex64 : Bytes → Bool
is_hex64 s = length s == 64 && all (λ c. is_digit c || leb b'a' c && leb c b'f') s

abbrev cons_before : ℕ → Bytes × Bytes → Bytes × Bytes
cons_before c (before, after) = (c ∷ before, after)

-- What stands before the last colon, and what stands after it.
abbrev split_or : ℕ → Bytes → Option (Bytes × Bytes) → Option (Bytes × Bytes)
split_or c rest (some parts) = some (cons_before c parts)
split_or c rest none = if c == b':' then some ([], rest) else none

unfoldable pub last_colon : Bytes → Option (Bytes × Bytes)
last_colon [] = none
last_colon (c ∷ rest) = split_or c rest (last_colon rest)

abbrev has_code : ℕ → Bytes → Bool
has_code c = any (λ d. d == c)

-- The host of `[host]`, where the first `]` is the last byte.
unfoldable pub unbracket : Bytes → Option Bytes
unbracket [] = none
unbracket (c ∷ []) = if c == b']' then some [] else none
unbracket (c ∷ rest) =
    let more = unbracket rest in
    if c == b']' then none else elim more [ none ↦ none | some host ↦ some (c ∷ host) ]

abbrev bracketed : Bytes → Option Bytes → Option (Bytes × Bytes)
bracketed port none = none
bracketed port (some host) =
    if has_code b'[' host || has_code b'[' port || has_code b']' port
    then none
    else some (host, port)

abbrev plain : Bytes → Bytes → Option (Bytes × Bytes)
plain host port =
    if has_code b':' host
      || has_code b'[' host
      || has_code b']' host
      || has_code b'[' port
      || has_code b']' port
    then none
    else some (host, port)

abbrev split_parts : Bytes → Bytes → Option (Bytes × Bytes)
split_parts [] port = plain [] port
split_parts (c ∷ rest) port =
    if c == b'[' then bracketed port (unbracket rest) else plain (c ∷ rest) port

-- `net.SplitHostPort`
unfoldable pub split_host_port : Bytes → Option (Bytes × Bytes)
unfolding last_colon unbracket
split_host_port s = elim (last_colon s) [
  | none ↦ none
  | some (before, port) ↦ split_parts before port
]

-- The number that decimal digits write, after `acc`.
unfoldable pub digits_from : ℕ → Bytes → Option ℕ
digits_from acc [] = some acc
digits_from acc (c ∷ rest) =
    let more = digits_from (10 * acc + (c - 48)) rest in if is_digit c then more else none

abbrev some_digits : Bytes → Option ℕ
some_digits [] = none
some_digits (c ∷ rest) = digits_from 0 (c ∷ rest)

abbrev up_to : ℕ → (ℕ → ℤ) → Option ℕ → Option ℤ
up_to most f none = none
up_to most f (some n) = if leb n most then some (f n) else none

abbrev negated : ℕ → ℤ
negated zero = pos 0
negated (suc n) = negsuc n

-- `strconv.Atoi`, on 64 bits.
unfoldable pub atoi : Bytes → Option ℤ
unfolding digits_from
atoi [] = none
atoi (c ∷ rest) =
    if c == b'-'
    then up_to 9_223_372_036_854_775_808 negated (some_digits rest)
    else up_to 9_223_372_036_854_775_807 pos
        (if c == b'+' then some_digits rest else some_digits (c ∷ rest))

pub data AddrFault : Type 0 where
  no_host_port no_host placeholder bad_port : AddrFault

abbrev pub port_fault : Option ℤ → Option AddrFault
port_fault none = some bad_port
port_fault (some p) = if ltb_ℤ p (pos 1) || ltb_ℤ (pos 65_535) p then some bad_port else none

abbrev pub is_nil : Bytes → Bool
is_nil [] = true
is_nil (c ∷ s) = false

unfoldable pub is_placeholder : Bytes → Bool
is_placeholder port = bytes_eq port (codes "PORT")

abbrev pub parts_fault : Option (Bytes × Bytes) → Option AddrFault
parts_fault none = some no_host_port
parts_fault (some (host, port)) =
    if is_nil host
    then some no_host
    else if is_placeholder port
    then some placeholder
    else port_fault (atoi port)

-- `validateAddr`
unfoldable pub addr_fault : String → Option AddrFault
unfolding split_host_port atoi
addr_fault s = parts_fault (split_host_port (codes s))
