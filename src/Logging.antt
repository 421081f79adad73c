-- ===== src/Logging.antt =====
-- internal/logging/logging.go: the levels, the record of an event, the masking of what leaves the log, and which files are kept; and
-- `latestLogFile` of internal/gui/observe.go. A value is a text or something else; that JSON can be made of a record, and that
-- files can be written, is not part of it.
pub mod Masked
pub mod Rotated
use rfid_middleware_idro900e.Prelude.{
  ℕ, zero, suc, ◌+◌, ◌-◌, String, Bool, true, false, not, ◌&&◌, ◌||◌, List, [], ◌∷◌, ◌++◌, select,
  Option, none, some, leb, ltb, ◌==◌, str_eq, if◌then◌else◌, Bytes, codes, take, drop, length, any,
}
use rfid_middleware_idro900e.Prelude.Int.{pos}
use rfid_middleware_idro900e.Admission.{Level, debug, info, warn, error}
use rfid_middleware_idro900e.Protocol.Commands.{show_int}
use rfid_middleware_idro900e.Gui.Mask.{is_hex, hex_run, ellipsis}

abbrev rank : Level → ℕ
rank debug = 0
rank info = 1
rank warn = 2
rank error = 3

abbrev pub level_text : Level → String
level_text debug = "debug"
level_text info = "info"
level_text warn = "warn"
level_text error = "error"

-- `ParseLevel`
unfoldable pub parse_level : String → Level
parse_level s =
    if str_eq s "debug"
    then debug
    else if str_eq s "warn"
    then warn
    else if str_eq s "error"
    then error
    else info

pub data Value : Type 0 where
  text : Bytes → Value
  other : Value

-- `F`, and a record, in the order of some walk over the map.
abbrev pub Fields : Type 0
Fields = List (String × Value)

-- `forbiddenKeys`
unfoldable pub is_forbidden : String → Bool
is_forbidden k =
    str_eq k "attendee"
    || str_eq k "fullName"
    || str_eq k "firstName"
    || str_eq k "lastName"
    || str_eq k "mobileNumber"
    || str_eq k "emailAddress"
    || str_eq k "membershipName"
    || str_eq k "membershipPosition"
    || str_eq k "token"
    || str_eq k "pulseToken"
    || str_eq k "body"

unfoldable pub put_field : String → Value → Fields → Fields
put_field k v [] = (k, v) ∷ []
put_field k v ((j, w) ∷ rest) = if str_eq j k then (j, v) ∷ rest else (j, w) ∷ put_field k v rest

unfoldable pub field_of : String → Fields → Option Value
field_of k [] = none
field_of k ((j, v) ∷ rest) = if str_eq j k then some v else field_of k rest

unfoldable pub put_allowed : Fields → Fields → Fields
unfolding is_forbidden put_field
put_allowed [] rec = rec
put_allowed ((k, v) ∷ rest) rec =
    put_allowed rest (if is_forbidden k then rec else put_field k v rec)

unfoldable pub first_forbidden : Fields → Option String
unfolding is_forbidden
first_forbidden [] = none
first_forbidden ((k, v) ∷ rest) = if is_forbidden k then some k else first_forbidden rest

abbrev marked : Option String → Fields → Fields
marked none rec = rec
marked (some k) rec = put_field "redactedField" (text (codes k)) rec

-- The record of an event at an instant, whose text is `ts`.
unfoldable pub record_of : Bytes → Level → Bytes → Fields → Fields
unfolding put_allowed first_forbidden
record_of ts level event fields = marked (first_forbidden fields) (
    put_allowed fields
      (("ts", text ts) ∷ ("level", text (codes (level_text level))) ∷ ("event", text event) ∷ []))

-- `Log`: what is written, if anything is.
unfoldable pub log_event : Level → Bytes → Level → Bytes → Fields → Option Fields
unfolding record_of
log_event least ts level event fields =
    if ltb (rank level) (rank least) then none else some (record_of ts level event fields)

abbrev pub is_word : ℕ → Bool
is_word c =
    leb b'0' c && leb c b'9' || leb b'a' c && leb c b'z' || leb b'A' c && leb c b'Z' || c == b'_'

-- How many word characters a text begins with.
unfoldable pub word_run : Bytes → ℕ
word_run [] = 0
word_run (c ∷ rest) = if is_word c then 1 + word_run rest else 0

-- A word of sixty-four hexadecimal digits begins here.
abbrev pub is_token_word : Bytes → Bool
is_token_word s = word_run s == 64 && leb 64 (hex_run s)

-- `token64.ReplaceAllStringFunc`; the number counts the bytes of a match that are still to be skipped, the Boolean says whether a word
-- character stands before.
unfoldable pub redact_from : ℕ → Bool → Bytes → Bytes
unfolding word_run hex_run
redact_from n w [] = []
redact_from (suc n) w (c ∷ rest) = redact_from n true rest
redact_from zero w (c ∷ rest) =
    let hidden = take 8 (c ∷ rest) ++ (ellipsis ++ redact_from 63 true rest) in
    let plain = c ∷ redact_from zero (is_word c) rest in
    if not w && is_token_word (c ∷ rest) then hidden else plain

abbrev stars : Bytes
stars = b'*' ∷ b'*' ∷ b'*' ∷ b'*' ∷ []

abbrev mask_epc : Bytes → Bytes
mask_epc s = if leb 8 (length s) then take (length s - 4) s ++ stars else s

-- `redactString`
unfoldable pub redact_string : String → Bytes → Bytes
unfolding redact_from
redact_string key s =
    let hidden = redact_from 0 false s in if str_eq key "epc" then mask_epc hidden else hidden

abbrev redact_value : String → Value → Value
redact_value k (text s) = text (redact_string k s)
redact_value k other = other

-- `Redact`
unfoldable pub redact : Fields → Fields
unfolding is_forbidden redact_string
redact [] = []
redact ((k, v) ∷ rest) =
    let more = redact rest in if is_forbidden k then more else (k, redact_value k v) ∷ more

-- Go's `<` on texts.
unfoldable pub text_lt : Bytes → Bytes → Bool
text_lt [] [] = false
text_lt [] (d ∷ b) = true
text_lt (c ∷ a) [] = false
text_lt (c ∷ a) (d ∷ b) = let more = text_lt a b in if c == d then more else ltb c d

abbrev file_prefix : Bytes
file_prefix = codes "middleware-"

abbrev pub suffix : Bytes
suffix = codes ".jsonl"

-- The names of the files of a day, the first one and those after a rotation.
abbrev pub first_file : Bytes → Bytes
first_file date = file_prefix ++ (date ++ suffix)

abbrev pub rotated_file : Bytes → ℕ → Bytes
rotated_file date i = file_prefix ++ (date ++ (46 ∷ (show_int (pos i) ++ suffix)))

-- `latestLogFile`, on the names that the pattern finds; the last one after a sort.
abbrev later : Bytes → Option Bytes → Bytes
later a none = a
later a (some b) = if text_lt a b then b else a

unfoldable pub latest_log_file : List Bytes → Option Bytes
unfolding text_lt
latest_log_file [] = none
latest_log_file (a ∷ rest) = some (later a (latest_log_file rest))

-- `cleanup`: the files that are left of those that the pattern finds, in their order.
abbrev pub is_old : Bytes → Bytes → Bool
is_old cutoff name = let date = drop 11 name in leb 8 (length date) && text_lt (take 8 date) cutoff

unfoldable pub kept_files : Bytes → List Bytes → List Bytes
unfolding text_lt
kept_files cutoff names =
    let candidates = select (λ n. not (is_old cutoff n)) names in
    drop (length candidates - 10) candidates
