-- ===== src/Tests/Parsing.antt =====
-- Runs of the parser of internal/reader/protocol/parser.go.
use rfid_middleware_idro900e.Prelude.{true, [], ◌∷◌, ◌≡◌, refl, Bytes, arith, ◌++◌}
use rfid_middleware_idro900e.Protocol.Cut.{cut_at}
use rfid_middleware_idro900e.Protocol.Blanks.{strip_spaces}
use rfid_middleware_idro900e.Protocol.Hex.{is_hex, is_hex_bytes, int16, value_of_four}
use rfid_middleware_idro900e.Protocol.Parser.{Kind, parse}
use rfid_middleware_idro900e.Protocol.Parser.RoundTrip.{IsTagText, tag_line, parse_reads_rssi}

-- "3000e280", with a blank between the PC and the EPC.
abbrev body : Bytes
body = b'3' ∷ b'0' ∷ b'0' ∷ b'0' ∷ b' ' ∷ b'e' ∷ b'2' ∷ b'8' ∷ b'0' ∷ []

abbrev pc : Bytes
pc = b'3' ∷ b'0' ∷ b'0' ∷ b'0' ∷ []

abbrev epc : Bytes
epc = b'e' ∷ b'2' ∷ b'8' ∷ b'0' ∷ []

texts : IsTagText pc epc
unfolding is_hex_bytes is_hex
texts = record {
  pc_length = refl;
  pc_hex = refl;
  epc_pos = omega arith;
  epc_even = refl;
  epc_hex = refl;
}

-- ";RFFC5" behind it, which is -59.
abbrev rssi_line : Bytes
rssi_line = b'>' ∷ b'T' ∷ (body ++ (b';' ∷ b'R' ∷ b'F' ∷ b'F' ∷ b'C' ∷ b'5' ∷ []))

parse_reads_rssi_example :
    parse rssi_line ≡ tag_line rssi_line pc epc (int16 (value_of_four b'F' b'F' b'C' b'5')) true
unfolding cut_at strip_spaces is_hex
parse_reads_rssi_example =
    parse_reads_rssi body pc epc b'F' b'F' b'C' b'5' [] refl refl texts (refl, refl, refl, refl)
      refl

is_tag_line : (parse rssi_line).kind ≡ Kind.tag
is_tag_line = rw parse_reads_rssi_example refl
