-- ===== src/Protocol/Parser/RoundTrip.antt =====
-- Lines that a reader prints for a tag are read back as that tag.
use rfid_middleware_idro900e.Prelude.{
  ℕ, ◌%◌, ◌≤◌, ◌≡◌, refl, Bool, true, false, [], ◌∷◌, ◌++◌, none, some, Bytes, length, all, arith,
  take_front, drop_front, length-append,
}
use rfid_middleware_idro900e.Prelude.Int.{ℤ, pos}
use rfid_middleware_idro900e.Protocol.Cut.{cut_at, cut_at-frame}
use rfid_middleware_idro900e.Protocol.Blanks.{is_blank, strip_spaces, trim_right_blanks}
use rfid_middleware_idro900e.Protocol.Hex.{
  is_hex, is_hex_bytes, upper_hex, int16, value_of_four, uint16_of_four,
}
use rfid_middleware_idro900e.Protocol.Parser.{
  Kind, Line, Payload, blank_line, split_rssi, read_tag, parse_tag, classify, parse,
}

-- The digits of a PC and of an EPC, in either case.
pub record IsTagText (pc epc : Bytes) : Type 0 where
  pub pc_length : length pc ≡ 4
  pub pc_hex : is_hex_bytes pc ≡ true
  pub epc_pos : 2 ≤ length epc
  pub epc_even : length epc % 2 ≡ 0
  pub epc_hex : is_hex_bytes epc ≡ true

-- The line that is read from them.
abbrev pub tag_line : Bytes → Bytes → Bytes → ℤ → Bool → Line
tag_line raw pc epc rssi has = record (blank_line raw) {
  kind = Kind.tag;
  tag = record { pc = upper_hex pc; epc = upper_hex epc; rssi = rssi; has_rssi = has };
}

read_tag-text :
    (raw : Bytes) (p : Payload) (pc epc : Bytes)
    → IsTagText pc epc
    → read_tag raw p (pc ++ epc) ≡ tag_line raw pc epc p.rssi p.has_rssi
unfolding read_tag
read_tag-text raw p pc epc h =
    rw (take_front 4 pc epc h.pc_length, drop_front 4 pc epc h.pc_length)
      (ground (arith, h, length-append pc epc))

trim-blanks : (s : Bytes) → all is_blank s ≡ true → trim_right_blanks s ≡ []
unfolding trim_right_blanks
trim-blanks [] h = refl
trim-blanks (c ∷ s) h = ground (arith, trim-blanks s)

trim-suffix :
    (a b c d : ℕ) (s : Bytes)
    → is_hex d ≡ true
    → all is_blank s ≡ true
    → trim_right_blanks (a ∷ b ∷ c ∷ d ∷ s) ≡ a ∷ b ∷ c ∷ d ∷ []
unfolding trim_right_blanks is_hex
trim-suffix a b c d s h k = rw (trim-blanks s k) (ground arith)

abbrev IsHex4 : ℕ → ℕ → ℕ → ℕ → Type 0
IsHex4 a b c d = (is_hex a ≡ true) × (is_hex b ≡ true) × (is_hex c ≡ true) × (is_hex d ≡ true)

split_rssi-plain :
    (body : Bytes)
    → cut_at b';' b'R' body ≡ none
    → split_rssi body ≡ some (record { body = body; rssi = pos 0; has_rssi = false })
unfolding split_rssi
split_rssi-plain body h = rw (h, split_rssi)

split_rssi-suffix :
    (body : Bytes) (a b c d : ℕ) (s : Bytes)
    → cut_at b';' b'R' body ≡ none
    → IsHex4 a b c d
    → all is_blank s ≡ true
    → split_rssi (body ++ (b';' ∷ b'R' ∷ a ∷ b ∷ c ∷ d ∷ s))
      ≡ some (record { body = body; rssi = int16 (value_of_four a b c d); has_rssi = true })
unfolding split_rssi is_hex_bytes
split_rssi-suffix body a b c d s h x k =
    rw (cut_at-frame b';' b'R' body (a ∷ b ∷ c ∷ d ∷ s) refl h, split_rssi)
      (rw (trim-suffix a b c d s x.3 k) (ground (arith, x, uint16_of_four a b c d x)))

-- A reply ">T" with the digits of a PC and an EPC, blanks anywhere among them, and no RSSI, is read
-- as that tag, in upper case, with no RSSI.
pub parse_reads_tag :
    (body pc epc : Bytes)
    → cut_at b';' b'R' body ≡ none
    → strip_spaces body ≡ pc ++ epc
    → IsTagText pc epc
    → parse (b'>' ∷ b'T' ∷ body) ≡ tag_line (b'>' ∷ b'T' ∷ body) pc epc (pos 0) false
unfolding parse classify parse_tag
parse_reads_tag body pc epc h s t =
    rw (split_rssi-plain body h, parse_tag) (rw s (read_tag-text _ _ pc epc t))

-- The same with ";R" and four hexadecimal digits behind it, and blanks at the end: the digits are
-- read as a number of 16 bits, and that as a signed one.
pub parse_reads_rssi :
    (body pc epc : Bytes) (a b c d : ℕ) (blanks : Bytes)
    → cut_at b';' b'R' body ≡ none
    → strip_spaces body ≡ pc ++ epc
    → IsTagText pc epc
    → IsHex4 a b c d
    → all is_blank blanks ≡ true
    → let raw : Bytes = b'>' ∷ b'T' ∷ (body ++ (b';' ∷ b'R' ∷ a ∷ b ∷ c ∷ d ∷ blanks)) in
      parse raw ≡ tag_line raw pc epc (int16 (value_of_four a b c d)) true
unfolding parse classify parse_tag
parse_reads_rssi body pc epc a b c d blanks h s t x k =
    rw (split_rssi-suffix body a b c d blanks h x k, parse_tag) (rw s (read_tag-text _ _ pc epc t))
