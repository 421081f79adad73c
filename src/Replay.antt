-- ===== src/Replay.antt =====
-- internal/replay/replay.go: a file in place of a reader, through the same framer and parser.
pub mod Matches
use rfid_middleware_idro900e.Prelude.{
  ℕ, zero, suc, ◌+◌, String, Bool, true, false, ◌&&◌, List, [], ◌∷◌, ◌++◌, Option, none, some, leb,
  ◌==◌, if◌then◌else◌, Bytes, length,
}
use rfid_middleware_idro900e.Prelude.Int.{pos}
use rfid_middleware_idro900e.Domain.{TagRead}
use rfid_middleware_idro900e.Admission.{Log, debug, info, warn, error}
use rfid_middleware_idro900e.Protocol.Framer.{
  Framer, FrameResult, new_framer, default_max_line, push,
}
use rfid_middleware_idro900e.Protocol.Parser.{Kind, Line, parse}

-- `now` is the clock, asked once for each read without an instant of its own.
pub record Runner : Type 0 where
  pub reader_id : String
  pub now : ℕ → ℕ

pub record Replayed : Type 0 where
  pub framer : Framer
  pub reads : List TagRead
  pub log : Log

abbrev pub logged : Log → Replayed → Replayed
logged l st = record st { log = st.log ++ l }

abbrev too_long : ℕ → Log
too_long zero = []
too_long (suc n) = (warn, "READER_LINE_TOO_LONG") ∷ too_long n

abbrev instant_or : ℕ → Option ℕ → ℕ
instant_or now none = now
instant_or now (some at) = at

abbrev pub hand_over : Runner → Option ℕ → Line → Replayed → Replayed
hand_over r at line st = record st {
  reads =
      st.reads
      ++ record {
        reader_id = r.reader_id;
        epc = line.tag.epc;
        received_at = instant_or (r.now (length st.reads)) at;
        raw_line = line.raw;
      }
        ∷ [];
}

-- The body of the loop of `consume`.
unfoldable pub consume_line : Runner → Option ℕ → Line → Replayed → Replayed
consume_line r at line st = elim line.kind [
  | Kind.tag ↦ hand_over r at line st
  | Kind.bad_tag ↦ logged ((warn, "READER_BAD_TAG") ∷ []) st
  | Kind.ack ↦ logged ((debug, "READER_RAW") ∷ []) st
  | Kind.code ↦ logged ((debug, "READER_RAW") ∷ []) st
  | Kind.setting ↦ logged ((debug, "READER_RAW") ∷ []) st
  | Kind.unknown ↦ logged ((warn, "READER_UNKNOWN_LINE") ∷ []) st
]

unfoldable pub consume_lines : Runner → Option ℕ → List Bytes → Replayed → Replayed
unfolding consume_line
consume_lines r at [] st = st
consume_lines r at (raw ∷ rest) st = consume_lines r at rest (consume_line r at (parse raw) st)

-- A chunk into the framer, and `consume` of what comes out.
unfoldable pub feed : Runner → Option ℕ → Bytes → Replayed → Replayed
unfolding consume_lines
feed r at chunk st =
    let (f, res) = push st.framer chunk in
    consume_lines r at res.lines (logged (too_long res.dropped) (record st { framer = f }))

-- The lines of `bufio.Scanner`: what ends in LF, and the rest if there is one. One CR that the scanner takes off is taken off
-- below with the others.
abbrev pub last_line : Bytes → List Bytes
last_line [] = []
last_line (a ∷ held) = (a ∷ held) ∷ []

unfoldable pub lines_from : Bytes → Bytes → List Bytes
lines_from held [] = last_line held
lines_from held (c ∷ rest) = elim (c == 10) [
  | true ↦ held ∷ lines_from [] rest
  | false ↦ lines_from (held ++ c ∷ []) rest
]

abbrev pub cons_kept : ℕ → Bytes → Bytes
cons_kept c [] = if c == 13 then [] else c ∷ []
cons_kept c (d ∷ rest) = c ∷ d ∷ rest

-- `bytes.TrimRight(…, "\r")`
unfoldable pub trim_cr : Bytes → Bytes
trim_cr [] = []
trim_cr (c ∷ rest) = cons_kept c (trim_cr rest)

-- How a replay ends: with the file, with the context, or with the error of a line.
pub data End : Type 0 where
  done cancelled : End
  line_error : ℕ → End

abbrev scan_buffer : ℕ
scan_buffer = 65_536

-- The loop of `RunRaw` from line `i` on. `stops` says at which lines the context is over.
unfoldable pub raw_lines : Runner → (ℕ → Bool) → ℕ → List Bytes → Replayed → Replayed × End
unfolding feed trim_cr
raw_lines r stops i [] st = (st, done)
raw_lines r stops i (raw ∷ rest) st =
    let next = raw_lines r stops (suc i) rest (feed r none (trim_cr raw ++ 13 ∷ 10 ∷ []) st) in
    if leb scan_buffer (length raw)
    then (st, line_error i)
    else if stops i
    then (st, cancelled)
    else next

abbrev pub fresh : Replayed
fresh = record { framer = new_framer (pos default_max_line); reads = []; log = [] }

-- `RunRaw`
unfoldable pub run_raw : Runner → (ℕ → Bool) → Bytes → Replayed × End
unfolding raw_lines lines_from
run_raw r stops input = raw_lines r stops 0 (lines_from [] input) fresh

-- A line of the extended form: blank, no JSON, or a record, whose instant may be missing or unreadable and whose chunks may be no
-- hexadecimal digits.
pub data Instant : Type 0 where
  missing unreadable : Instant
  instant : ℕ → Instant

pub data Fixture : Type 0 where
  blank malformed : Fixture
  fixture : Instant → List (Option Bytes) → Fixture

unfoldable pub feed_chunks : Runner → ℕ → Option ℕ → List (Option Bytes) → Replayed → Replayed × End
unfolding feed
feed_chunks r i t [] st = (st, done)
feed_chunks r i t (none ∷ rest) st = (st, line_error i)
feed_chunks r i t (some chunk ∷ rest) st = feed_chunks r i t rest (feed r t chunk st)

unfoldable pub fixture_line : Runner → ℕ → Fixture → Replayed → Replayed × End
unfolding feed_chunks
fixture_line r i blank st = (st, done)
fixture_line r i malformed st = (st, line_error i)
fixture_line r i (fixture missing chunks) st = feed_chunks r i none chunks st
fixture_line r i (fixture unreadable chunks) st = (st, line_error i)
fixture_line r i (fixture (instant t) chunks) st = feed_chunks r i (some t) chunks st

-- The loop of `RunNDJSON` from line `i` on, on lines that the scanner's buffer holds.
unfoldable pub fixture_lines : Runner → (ℕ → Bool) → ℕ → List Fixture → Replayed → Replayed × End
unfolding fixture_line
fixture_lines r stops i [] st = (st, done)
fixture_lines r stops i (x ∷ rest) st =
    let (st', e) = fixture_line r i x st in
    let next = fixture_lines r stops (suc i) rest st' in
    if stops i
    then (st, cancelled)
    else elim e [ done ↦ next | cancelled ↦ (st', cancelled) | line_error k ↦ (st', line_error k) ]

-- `RunNDJSON`
unfoldable pub run_ndjson : Runner → (ℕ → Bool) → List Fixture → Replayed × End
unfolding fixture_lines
run_ndjson r stops input = fixture_lines r stops 1 input fresh
