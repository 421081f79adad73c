-- ===== src/Protocol/Commands.antt =====
-- internal/reader/protocol/commands.go: the commands that may be sent to a reader, and the tests for their replies.
pub mod Safe
use rfid_middleware_idro900e.Prelude.{
  ℕ, zero, suc, ◌+◌, ◌/◌, ◌%◌, Bool, true, false, ◌&&◌, ◌||◌, List, [], ◌∷◌, ◌++◌, Option, none,
  some, ltb, ◌==◌, if◌then◌else◌, Bytes,
}
use rfid_middleware_idro900e.Prelude.Int.{ℤ, pos, negsuc, ltb_ℤ, eq_ℤ}
use rfid_middleware_idro900e.Protocol.Parser.{Kind, Line}

-- `%d` of a number that is not negative: `n` has at most as many digits as the fuel.
unfoldable pub decimal : ℕ → ℕ → Bytes
decimal zero n = []
decimal (suc fuel) n =
    let front = decimal fuel (n / 10) in
    if ltb n 10 then (48 + n) ∷ [] else front ++ ((48 + n % 10) ∷ [])

-- `%d` of a 64-bit integer, which has nineteen digits at most.
abbrev pub show_int : ℤ → Bytes
show_int (pos n) = decimal 19 n
show_int (negsuc n) = b'-' ∷ decimal 19 (suc n)

abbrev pub cmd_version : Bytes
cmd_version = 62 ∷ 121 ∷ 32 ∷ 118 ∷ 13 ∷ []

-- ">x b %d\r"
abbrev pub set_command : ℕ → ℤ → Bytes
set_command t v = b'>' ∷ b'x' ∷ b' ' ∷ t ∷ b' ' ∷ (show_int v ++ 13 ∷ [])

unfoldable pub cmd_set_buzzer : ℤ → Option Bytes
cmd_set_buzzer v = if eq_ℤ v (pos 0) || eq_ℤ v (pos 1) then some (set_command b'b' v) else none

unfoldable pub cmd_set_power : ℤ → Option Bytes
cmd_set_power v = if ltb_ℤ v (pos 50) || ltb_ℤ (pos 300) v then none else some (set_command b'p' v)

abbrev pub cmd_rssi_off : Bytes
cmd_rssi_off = b'>' ∷ b'x' ∷ b' ' ∷ b'i' ∷ b' ' ∷ b'0' ∷ 13 ∷ []

abbrev pub cmd_start_inventory : Bytes
cmd_start_inventory = 62 ∷ 102 ∷ 13 ∷ []

-- The only command without the header.
abbrev pub cmd_stop : Bytes
cmd_stop = 51 ∷ 13 ∷ []

abbrev pub kind_code : Kind → ℕ
kind_code Kind.unknown = 0
kind_code Kind.tag = 1
kind_code Kind.bad_tag = 2
kind_code Kind.ack = 3
kind_code Kind.code = 4
kind_code Kind.setting = 5

abbrev pub Matcher : Type 0
Matcher = Line → Bool

abbrev pub match_setting : ℕ → Matcher
match_setting t l = kind_code l.kind == 5 && l.setting.type == t

abbrev pub match_ack : ℕ → Matcher
match_ack c l = kind_code l.kind == 3 && l.ack == c
