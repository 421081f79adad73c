-- ===== src/Tests/Starting.antt =====
-- Runs of internal/app/app.go: the start, the sweeper and the drain; and of internal/replay/replay.go.
use mathlib.Core.List.{Memᴰ, flatten}
use rfid_middleware_idro900e.Prelude.{
  ℕ, false, List, [], ◌∷◌, ◌++◌, String, Option, none, ◌≡◌, refl, arith, Bytes, if◌then◌else◌,
  select, ◌-◌, ◌≤◌,
}
use rfid_middleware_idro900e.Prelude.Int.{pos}
use rfid_middleware_idro900e.Domain.{no_meta, suspended_token, millis}
use rfid_middleware_idro900e.Store.{admit, Db, GateRow, empty, new_row, last_accepted, debounced}
use rfid_middleware_idro900e.Store.Gates.{gates, gate_of}
use rfid_middleware_idro900e.Gate.{new_registry}
use rfid_middleware_idro900e.Config.{Reader}
use rfid_middleware_idro900e.App.Restore.{Fails, Started, restore_all, restore}
use rfid_middleware_idro900e.App.Restore
use rfid_middleware_idro900e.App.Restore.Keeps.{Suspension, restart_keeps_Suspension}
use rfid_middleware_idro900e.App.Sweep.{Sweeper, sweep}
use rfid_middleware_idro900e.App.Sweep.Keeps.{young, sweep_keeps}
use rfid_middleware_idro900e.App.Drain.{Look, Drain, start_drain}
use rfid_middleware_idro900e.Protocol.Cut.{cut_at}
use rfid_middleware_idro900e.Protocol.Framer.{default_max_line}
use rfid_middleware_idro900e.Protocol.Framer.Frames.{ready}
use rfid_middleware_idro900e.Session.{Config, Session, inventory, open_session, run}
use rfid_middleware_idro900e.Session.Inventory.{epcs, events}
use rfid_middleware_idro900e.Replay.{Runner, run_raw, trim_cr, done}
use rfid_middleware_idro900e.Replay.Matches.{file_of, epcs_of, replay_matches_session}
use rfid_middleware_idro900e.Store.Invariant.{IsWf}
use rfid_middleware_idro900e.Store.Invariant.Reach.{start, next, admits, Reach-IsWf}

abbrev digest : String → String
digest v = v

abbrev fails : Fails
fails = record { gates = false; count = λ r. false; set = λ r. false }

abbrev reader_1 : Reader
reader_1 = record {
  id = "r1";
  addr = "10.0.0.5:5578";
  token = record { v = "new" };
  session_id = "";
}

abbrev revoked : GateRow
revoked = record {
  reader_id = "r1";
  state = suspended_token;
  reason = "401";
  changed_at_ms = 7;
  token_fingerprint = "old";
  meta = no_meta;
}

-- A read that waits still belongs to the revoked token.
abbrev stopped : Db
stopped = record empty {
  queue = new_row 1 "r1" (b'e' ∷ b'2' ∷ []) 5_000 "05" ∷ [];
  gates = revoked ∷ [];
}

abbrev restored : Started
restored =
    restore_all fails digest 9_000_000_000 (revoked ∷ []) (reader_1 ∷ []) (Restore.start stopped)

restart_keeps_Suspension_example :
    Suspension fails digest 9_000_000_000 reader_1 revoked stopped restored
    × (restored.db.queue ≡ stopped.queue)
unfolding restore gates gate_of
restart_keeps_Suspension_example =
    restart_keeps_Suspension fails digest 9_000_000_000 (reader_1 ∷ []) stopped restored reader_1
      revoked refl (tt, tt) (Memᴰ.head refl) refl refl

-- The debounce interval is a second, a row may wait for a day.
abbrev sweeper : Sweeper
sweeper = record {
  max_age = 86_400_000_000_000;
  debounce = 1_000_000_000;
  expire_fails = false;
  cleanup_fails = false;
  oldest_fails = false;
}

abbrev parse : String → Option ℕ
parse s = none

-- A read was accepted five seconds before the round, the next one comes half a second after it.
abbrev one_read : Db
one_read = (admit (λ c. false) "r1" (b'e' ∷ []) 89_995_000 "05" 1_000 empty).1

one_read-IsWf : IsWf (millis sweeper.debounce) one_read
unfolding millis
one_read-IsWf =
    Reach-IsWf 1_000 (omega arith)
      (next start (admits (λ c. false) "r1" (b'e' ∷ []) 89_995_000 "05"))

sweep_keeps_example :
    (debounced
        (last_accepted "r1" (b'e' ∷ []) (sweep sweeper parse 90_000_000_000_000 one_read).0.seen)
        90_000_500
        (millis 1_000_000_000)
      ≡ debounced (last_accepted "r1" (b'e' ∷ []) one_read.seen) 90_000_500 (millis 1_000_000_000))
    × ((sweep sweeper parse 90_000_000_000_000 one_read).0.queue ≡ (
        if sweeper.expire_fails
        then one_read.queue
        else select (young (millis (90_000_000_000_000 - sweeper.max_age))) one_read.queue))
unfolding millis
sweep_keeps_example =
    sweep_keeps sweeper parse 90_000_000_000_000 90_000_500 "r1" (b'e' ∷ []) one_read one_read-IsWf
      (omega arith) early
  where
    early : millis 90_000_000_000_000 ≤ 90_000_500
    early = omega arith

-- The registry of a fresh process: nothing is confirmed yet.
abbrev look : Look
look = record {
  cancelled = false;
  now = 9_000_000_000;
  reg = new_registry;
  db = stopped;
  depth_fails = false;
  due_fails = false;
}

abbrev waited : Drain
waited = record start_drain { idle = 149 }

-- Two lines of the reader, in three pieces.
abbrev tag_line : Bytes
tag_line = b'>' ∷ b'T' ∷ b'3' ∷ b'0' ∷ b'0' ∷ b'0' ∷ b'e' ∷ b'2' ∷ []

abbrev runner : Runner
runner = record { reader_id = "r1"; now = λ n. n }

abbrev session_config : Config
session_config = record { reader_id = "r1"; power_gain = pos 300; buzzer = pos 1 }

abbrev reading : Session
reading = record (open_session (λ n. false)) {
  phase = inventory;
  in_init = false;
  framer = ready default_max_line [];
}

abbrev cut_up : List (ℕ × Bytes)
cut_up =
    (1, b'>' ∷ b'T' ∷ b'3' ∷ b'0' ∷ [])
    ∷ (2, b'0' ∷ b'0' ∷ b'e' ∷ b'2' ∷ b'\r' ∷ [])
    ∷ (3, b'\n' ∷ [])
    ∷ []

replay_matches_session_example :
    ((run_raw runner (λ i. false) (file_of (tag_line ∷ []))).1 ≡ done)
    × (epcs (run (λ n. false) session_config (events cut_up) reading)
        ≡ epcs reading ++ epcs_of (run_raw runner (λ i. false) (file_of (tag_line ∷ []))).0)
unfolding flatten cut_at trim_cr
replay_matches_session_example =
    replay_matches_session runner (tag_line ∷ []) (λ n. false) session_config cut_up reading
      (
        (
          (refl, omega arith),
          refl,
          (
            λ e. omega arith,
            (
              λ e. omega arith,
              (
                λ e. omega arith,
                (
                  λ e. omega arith,
                  (
                    λ e. omega arith,
                    (λ e. omega arith, (λ e. omega arith, (λ e. omega arith, tt))),
                  ),
                ),
              ),
            ),
          ),
        ),
        tt,
      )
      refl refl refl refl
