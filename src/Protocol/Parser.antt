-- ===== src/Protocol/Parser.antt =====
-- internal/reader/protocol/parser.go: the classification of one line. An unused field of `Line` has
-- its zero value, as in Go. `RSSIdBm` is left out: there are no floats, and nothing calls it. The
-- proofs are in the modules below.
pub mod Tags
pub mod RoundTrip
use rfid_middleware_idro900e.Prelude.{
  ℕ, ◌%◌, String, Bool, true, false, not, ◌||◌, List, [], ◌∷◌, Option, none, some, ltb, leb, ◌==◌,
  if◌then◌else◌, Bytes, length, take, drop,
}
use rfid_middleware_idro900e.Prelude.Int.{ℤ, pos}
use rfid_middleware_idro900e.Protocol.Cut.{cut_at}
use rfid_middleware_idro900e.Protocol.Blanks.{strip_spaces, trim_right_blanks, trim_space}
use rfid_middleware_idro900e.Protocol.Hex.{is_hex_bytes, upper_hex, parse_uint16, int16}

pub data Kind : Type 0 where
  unknown tag bad_tag ack code setting : Kind

pub record Tag : Type 0 where
  pub pc : Bytes
  pub epc : Bytes
  pub rssi : ℤ
  pub has_rssi : Bool

pub record Setting : Type 0 where
  pub type : ℕ
  pub value : Bytes

pub record Line : Type 0 where
  pub kind : Kind
  pub raw : Bytes
  pub tag : Tag
  pub ack : ℕ
  pub code : Bytes
  pub setting : Setting
  pub err : String

abbrev pub no_tag : Tag
no_tag = record { pc = []; epc = []; rssi = pos 0; has_rssi = false }

abbrev pub no_setting : Setting
no_setting = record { type = 0; value = [] }

-- `Line{Raw: string(raw)}`
abbrev pub blank_line : Bytes → Line
blank_line raw = record {
  kind = Kind.unknown;
  raw = raw;
  tag = no_tag;
  ack = 0;
  code = [];
  setting = no_setting;
  err = "";
}

abbrev pub refuse : Bytes → Kind → String → Line
refuse raw k reason = record (blank_line raw) { kind = k; err = reason }

pub record Payload : Type 0 where
  pub body : Bytes
  pub rssi : ℤ
  pub has_rssi : Bool

-- The optional suffix ";R" and four digits; `none` is "bad-rssi".
unfoldable pub split_rssi : Bytes → Option Payload
split_rssi payload = elim (cut_at b';' b'R' payload) [
  | none ↦ some (record { body = payload; rssi = pos 0; has_rssi = false })
  | some (front, back) ↦
      let suffix = trim_right_blanks back in
      if not (length suffix == 4) || not (is_hex_bytes suffix)
      then none
      else elim (parse_uint16 suffix) [
        | none ↦ none
        | some u ↦ some (record { body = front; rssi = int16 u; has_rssi = true })
      ]
]

-- The part of `parseTag` behind the removal of blanks: four digits of PC, and an EPC of pairs.
unfoldable pub read_tag : Bytes → Payload → Bytes → Line
read_tag raw p payload =
    let pc = take 4 payload in
    let epc = drop 4 payload in
    if ltb (length payload) 6
    then refuse raw Kind.bad_tag "too-short"
    else if not (is_hex_bytes pc)
    then refuse raw Kind.bad_tag "bad-pc"
    else if not (length epc % 2 == 0) || not (is_hex_bytes epc)
    then refuse raw Kind.bad_tag "bad-epc"
    else record (blank_line raw) {
      kind = Kind.tag;
      tag = record { pc = upper_hex pc; epc = upper_hex epc; rssi = p.rssi; has_rssi = p.has_rssi };
    }

-- `parseTag`, given `raw` and `raw[2:]`.
unfoldable pub parse_tag : Bytes → Bytes → Line
parse_tag raw payload = elim (split_rssi payload) [
  | none ↦ refuse raw Kind.bad_tag "bad-rssi"
  | some p ↦ read_tag raw p (strip_spaces p.body)
]

ack_line : Bytes → Bytes → Line
ack_line raw [] = refuse raw Kind.unknown "empty-ack"
ack_line raw (c ∷ cs) = record (blank_line raw) { kind = Kind.ack; ack = c }

-- `raw[2] == ' '`, where at least four bytes are there.
setting_line : Bytes → ℕ → Bytes → Line
setting_line raw t (c ∷ d ∷ rest) =
    if c == b' '
    then record (blank_line raw) {
      kind = Kind.setting;
      setting = record { type = t; value = trim_space (d ∷ rest) };
    }
    else refuse raw Kind.unknown "unclassified"
setting_line raw t _ = refuse raw Kind.unknown "unclassified"

-- The `switch raw[1]`, given `raw`, `raw[1]` and `raw[2:]`.
unfoldable pub classify : Bytes → ℕ → Bytes → Line
unfolding ack_line setting_line
classify raw t rest =
    if t == b'T'
    then parse_tag raw rest
    else if t == b'A'
    then ack_line raw (trim_space rest)
    else if t == b'C'
    then record (blank_line raw) { kind = Kind.code; code = trim_space rest }
    else setting_line raw t rest

unfoldable pub parse : Bytes → Line
parse (c ∷ t ∷ rest) =
    if c == b'>'
    then classify (c ∷ t ∷ rest) t rest
    else refuse (c ∷ t ∷ rest) Kind.unknown "not-a-reply"
parse raw = refuse raw Kind.unknown "not-a-reply"
