-- ===== src/Tests/Sending.antt =====
-- Runs of the loop of internal/sender/sender.go.
use mathlib.Core.List.{Memᴰ}
use rfid_middleware_idro900e.Prelude.{
  ℕ, ◌+◌, inl, List, true, false, none, some, [], ◌∷◌, ◌≡◌, refl, arith, length,
}
use rfid_middleware_idro900e.Domain.{Secret, active, no_meta, complete, millis}
use rfid_middleware_idro900e.Store.{Row, empty, new_row, admit, admit_tx, debounced, last_accepted}
use rfid_middleware_idro900e.Store.Transaction.{ok}
use rfid_middleware_idro900e.Store.Queue.{next_due, one_of, earliest}
use rfid_middleware_idro900e.Gate.{Registry, new_registry, sendable_readers, sendable_of}
use rfid_middleware_idro900e.Congkong.Json.{
  obj, str, member, end, names, into_members, into_struct, unmarshal,
}
use rfid_middleware_idro900e.Congkong.Decode.{says_success, set_result}
use rfid_middleware_idro900e.Congkong.Classify.{HttpResult, classify}
use rfid_middleware_idro900e.Sender.{
  Sender, Faults, no_faults, World, round, until_wait, seconds, Turn,
}
use rfid_middleware_idro900e.Sender.Delivery.{round_posts, MaySend}
use rfid_middleware_idro900e.Sender.Rows.{round_keeps, Fate}
use rfid_middleware_idro900e.Sender.Progress.{until_wait_waits}
use rfid_middleware_idro900e.Sender.Stops.{round_gates, Changes}
use rfid_middleware_idro900e.Sender.Waits.{failed_writes_repeat, Loses}
use rfid_middleware_idro900e.Tests.Storing.{one_read, reached}

abbrev row : Row
row = new_row 1 "r1" (b'e' ∷ b'2' ∷ []) 5_000 "05"

abbrev entries : Registry
entries = record new_registry {
  entries = ("r1", record { state = active; reason = ""; fingerprint = "f"; meta = no_meta }) ∷ [];
}

abbrev world : World
world = record {
  reg = entries;
  db = record empty { queue = row ∷ []; next_id = 2 };
  log = [];
  posts = [];
  contacts = [];
  succeeded = [];
}

abbrev token : Secret
token = record { v = "t" }

-- {"result": "success"}
abbrev success : HttpResult
success = record {
  status = 200;
  body = some (obj (member "result" (str "success") end));
  body_err = false;
  transport_err = false;
  date_skew = none;
}

abbrev sender : Sender
sender = record {
  max_age = seconds 86_400;
  creds = λ _. some token;
  answer = λ _. success;
  has_on_success = true;
  has_on_contact = true;
}

abbrev now : ℕ
now = 6_000_000_000

abbrev broken : Faults
broken = record no_faults { queue = true }

due : next_due false (millis now) (sendable_readers world.reg) world.db ≡ ok (some row)
unfolding next_due millis sendable_readers sendable_of one_of earliest
due = refl

succeeds : (classify success).0 ≡ complete
unfolding classify says_success unmarshal into_struct into_members set_result names
succeeds = refl

round_posts_example : MaySend sender no_faults now world
round_posts_example = round_posts sender no_faults now world

round_keeps_example : Fate sender no_faults now world row
round_keeps_example = round_keeps sender no_faults now world row (Memᴰ.head refl)

-- A turn in which the server takes the request.
abbrev turn_at : ℕ → Turn
turn_at t = record { now = t; faults = no_faults; answer = λ _. success }

-- A round at the sixth second, and one four seconds later.
abbrev turns : List Turn
turns = turn_at now ∷ turn_at 10_000_000_000 ∷ []

abbrev admitted : World
admitted = record world { db = one_read }

until_wait_waits_example : (d : ℕ) × ((until_wait turns sender admitted).1 ≡ some d)
unfolding millis sendable_readers sendable_of one_of admit admit_tx debounced last_accepted
until_wait_waits_example =
    until_wait_waits sender 1_000 now 10_000_000_000 turns admitted (omega arith) reached (tt, tt)
      ((omega arith, omega arith, refl), ((omega arith, omega arith, refl), tt)) (omega arith)

round_gates_example : Changes sender no_faults now world (round sender no_faults now world).0.reg
round_gates_example = round_gates sender no_faults now world

-- A turn in which the store does not take the answer.
abbrev broken_turn : Turn
broken_turn = record { now = now; faults = broken; answer = λ _. success }

abbrev broken_turns : List Turn
broken_turns = broken_turn ∷ broken_turn ∷ broken_turn ∷ []

failed_writes_repeat_example :
    ((until_wait broken_turns sender world).1 ≡ none)
    × (length (until_wait broken_turns sender world).0.posts ≡ 0 + 3)
unfolding millis
failed_writes_repeat_example =
    failed_writes_repeat sender row token refl broken_turns world refl (loses, (loses, (loses, tt)))
  where
    loses : Loses sender row token refl world broken_turn
    loses = (refl, refl, inl succeeds, due)
