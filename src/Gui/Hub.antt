-- ===== src/Gui/Hub.antt =====
-- internal/gui/server.go: what the windows of the browser are told. Each has a channel of 256 places; who sends never waits for it.
-- Encoding a state is an argument, which may fail.
pub mod Wf
use rfid_middleware_idro900e.Prelude.{
  ℕ, ◌+◌, String, Bool, true, false, not, List, [], ◌∷◌, ◌++◌, map, Option, none, some, ltb, ◌==◌,
  if◌then◌else◌, Bytes, length, select,
}
use rfid_middleware_idro900e.Gui.Mask.{mask_log_line}

-- `sseMsg`
pub record Message : Type 0 where
  pub event : String
  pub payload : Bytes

pub record Subscriber : Type 0 where
  pub id : ℕ
  pub channel : List Message

-- The part of `Server` that its mutex guards.
pub record Hub (S : Type 0) : Type 0 where
  pub state : S
  pub subs : List Subscriber
  pub next_sub : ℕ

-- A message to a channel, which is dropped where the channel is full.
unfoldable pub offer : Message → Subscriber → Subscriber
offer m s = if ltb (length s.channel) 256 then record s { channel = s.channel ++ m ∷ [] } else s

-- What a window takes next from its channel.
abbrev rest_of : List Message → List Message
rest_of [] = []
rest_of (m ∷ ms) = ms

unfoldable pub take_from : ℕ → Subscriber → Subscriber
take_from id s = if s.id == id then record s { channel = rest_of s.channel } else s

module _ {S : Type 0} (marshal : S → Option Bytes) where
  abbrev pub new_hub : S → Hub S
  new_hub st = record { state = st; subs = []; next_sub = 0 }

  unfoldable pub broadcast : Message → Hub S → Hub S
  unfolding offer
  broadcast m h = record h { subs = map (offer m) h.subs }

  unfoldable pub send_state : S → Option Bytes → Hub S → Hub S
  unfolding broadcast
  send_state st none h = h
  send_state st (some b) h =
      broadcast (record { event = "state"; payload = b }) (record h { state = st })

  -- `PushState`
  unfoldable pub push_state : S → Hub S → Hub S
  unfolding send_state
  push_state st h = send_state st (marshal st) h

  -- `PushLog`
  unfoldable pub push_log : Bytes → Hub S → Hub S
  unfolding broadcast
  push_log line h = broadcast (record { event = "log"; payload = mask_log_line line }) h

  -- `handleEvents`: a window comes, and is written the state at once; it takes a message; it goes.
  unfoldable pub subscribe : Hub S → Hub S × Option Bytes
  subscribe h = (
    record h {
      subs = record { id = h.next_sub; channel = [] } ∷ h.subs;
      next_sub = h.next_sub + 1;
    },
    marshal h.state,
  )

  unfoldable pub receive : ℕ → Hub S → Hub S
  unfolding take_from
  receive id h = record h { subs = map (take_from id) h.subs }

  unfoldable pub unsubscribe : ℕ → Hub S → Hub S
  unsubscribe id h = record h { subs = select (λ (s : Subscriber). not (s.id == id)) h.subs }
