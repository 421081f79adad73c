-- ===== src/Protocol/Parser/Tags.antt =====
-- What the tag lines are that the parser accepts, and what it reads out of them.
use rfid_middleware_idro900e.Prelude.{
  suc, ◌%◌, ◌≤◌, ◌≡◌, ◌∙◌, refl, ap, true, [], ◌∷◌, some, inl, inr, Bytes, length, all, take, drop,
  All, arith, Option-cases, length-take, length-drop,
}
use rfid_middleware_idro900e.Protocol.Cut.{cut_at}
use rfid_middleware_idro900e.Protocol.Blanks.{strip_spaces, trim_right_blanks}
use rfid_middleware_idro900e.Protocol.Hex.{
  is_hex, is_hex_bytes, upper_hex, parse_uint16, IsUpperHex, upper-IsUpperHex, IsInt16,
  int16-IsInt16, parse_uint16-lt,
}
use rfid_middleware_idro900e.Protocol.Parser.{
  Kind, Tag, Payload, split_rssi, read_tag, parse_tag, classify, parse,
}

-- What a tag promises to those who get it.
pub record IsTag (t : Tag) : Type 0 where
  pub pc_length : length t.pc ≡ 4
  pub pc_upper : All IsUpperHex t.pc
  pub epc_pos : 2 ≤ length t.epc
  pub epc_even : length t.epc % 2 ≡ 0
  pub epc_upper : All IsUpperHex t.epc
  pub rssi_range : IsInt16 t.rssi

length-upper_hex : (s : Bytes) → length (upper_hex s) ≡ length s
unfolding upper_hex
length-upper_hex [] = refl
length-upper_hex (c ∷ s) = ap suc (length-upper_hex s)

All-upper : (s : Bytes) → all is_hex s ≡ true → All IsUpperHex (upper_hex s)
unfolding upper_hex
All-upper [] h = tt
All-upper (c ∷ s) h = (upper-IsUpperHex c (ground (arith, h)), All-upper s (ground (arith, h)))

All-upper_hex : (s : Bytes) → is_hex_bytes s ≡ true → All IsUpperHex (upper_hex s)
unfolding is_hex_bytes
All-upper_hex [] h = cc
All-upper_hex (c ∷ s) h = All-upper (c ∷ s) h

module _ (raw : Bytes) (p : Payload) (s : Bytes) where
  read_tag-facts :
      (read_tag raw p s).kind ≡ Kind.tag
      → (6 ≤ length s)
        × (is_hex_bytes (take 4 s) ≡ true)
        × (is_hex_bytes (drop 4 s) ≡ true)
        × (length (drop 4 s) % 2 ≡ 0)
  unfolding read_tag
  read_tag-facts h = ground arith

  tag-read_tag :
      (read_tag raw p s).kind ≡ Kind.tag
      → (read_tag raw p s).tag ≡ record {
        pc = upper_hex (take 4 s);
        epc = upper_hex (drop 4 s);
        rssi = p.rssi;
        has_rssi = p.has_rssi;
      }
  unfolding read_tag
  tag-read_tag h = ground arith

  read_tag-IsTag :
      IsInt16 p.rssi → (read_tag raw p s).kind ≡ Kind.tag → IsTag (read_tag raw p s).tag
  read_tag-IsTag r h =
      let (long, pc, epc, even) = read_tag-facts h in
      rw (tag-read_tag h) (record {
        pc_length = length-upper_hex (take 4 s) ∙ length-take 4 s (omega arith);
        pc_upper = All-upper_hex (take 4 s) pc;
        epc_pos = omega (arith, length-upper_hex (drop 4 s), length-drop 4 s);
        epc_even = rw (length-upper_hex (drop 4 s)) even;
        epc_upper = All-upper_hex (drop 4 s) epc;
        rssi_range = r;
      })

split_rssi-IsInt16 : (s : Bytes) {p : Payload} → split_rssi s ≡ some p → IsInt16 p.rssi
unfolding split_rssi
split_rssi-IsInt16 s h = elim (Option-cases (cut_at b';' b'R' s)) [
  | inl e ↦ ground (arith, h, e)
  | inr ((front, back), e) ↦ elim (Option-cases (parse_uint16 (trim_right_blanks back))) [
    | inl n ↦ ground (arith, h, e, n)
    | inr (u, n) ↦
        ground (arith, h, e, n, int16-IsInt16 u (parse_uint16-lt (trim_right_blanks back) n))
  ]
]

parse_tag-IsTag : (raw s : Bytes) → (parse_tag raw s).kind ≡ Kind.tag → IsTag (parse_tag raw s).tag
unfolding parse_tag
parse_tag-IsTag raw s h = elim (Option-cases (split_rssi s)) [
  | inl e ↦ ground (arith, h, e)
  | inr (p, e) ↦
      rw (e, parse_tag)
        (read_tag-IsTag raw p (strip_spaces p.body) (split_rssi-IsInt16 s e)
          (rw (e, parse_tag) at h))
]

-- A line that is classified as a tag has a PC of four digits and an EPC of one pair of digits or
-- more, all in upper case, and an RSSI of 16 signed bits.
pub parse-IsTag : (raw : Bytes) → (parse raw).kind ≡ Kind.tag → IsTag (parse raw).tag
unfolding parse classify
parse-IsTag [] h = cc
parse-IsTag (c ∷ []) h = cc
parse-IsTag (c ∷ t ∷ rest) h = ground (arith, h, parse_tag-IsTag (c ∷ t ∷ rest) rest)
