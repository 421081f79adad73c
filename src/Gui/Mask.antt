-- ===== src/Gui/Mask.antt =====
-- internal/gui/mask.go: no token in a line of the log that goes to the browser. The pattern is sixty-four hexadecimal digits; the
-- leftmost match is replaced, then the search goes on behind it.
pub mod Hides
use rfid_middleware_idro900e.Prelude.{
  ℕ, zero, suc, ◌+◌, Bool, true, false, ◌&&◌, ◌||◌, List, [], ◌∷◌, ◌++◌, leb, if◌then◌else◌, Bytes,
  take,
}

abbrev pub is_hex : ℕ → Bool
is_hex c = leb b'0' c && leb c b'9' || leb b'a' c && leb c b'f' || leb b'A' c && leb c b'F'

-- How many hexadecimal digits a text begins with.
unfoldable pub hex_run : Bytes → ℕ
hex_run [] = 0
hex_run (c ∷ rest) = if is_hex c then 1 + hex_run rest else 0

-- "…"
abbrev pub ellipsis : Bytes
ellipsis = 0xe2 ∷ 0x80 ∷ 0xa6 ∷ []

-- `ReplaceAllFunc`; the number counts the bytes of a match that are still to be skipped.
unfoldable pub mask_from : ℕ → Bytes → Bytes
unfolding hex_run
mask_from n [] = []
mask_from (suc n) (c ∷ rest) = mask_from n rest
mask_from zero (c ∷ rest) =
    let masked = take 8 (c ∷ rest) ++ (ellipsis ++ mask_from 63 rest) in
    let plain = c ∷ mask_from zero rest in if leb 64 (hex_run (c ∷ rest)) then masked else plain

-- `maskLogLine`
unfoldable pub mask_log_line : Bytes → Bytes
unfolding mask_from
mask_log_line line = mask_from 0 line
