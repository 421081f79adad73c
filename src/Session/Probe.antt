-- ===== src/Session/Probe.antt =====
-- internal/reader/session/probe.go: one question to a reader outside of a session, as a machine over what its `select`s pick. How
-- long the answer took is left out.
pub mod Answer
use rfid_middleware_idro900e.Prelude.{
  ℕ, Bool, true, false, List, [], ◌∷◌, ◌++◌, Option, none, some, if◌then◌else◌, Bytes, any,
}
use rfid_middleware_idro900e.Prelude.Int.{pos}
use rfid_middleware_idro900e.Protocol.Framer.{Framer, new_framer, default_max_line, push}
use rfid_middleware_idro900e.Protocol.Parser.{parse}
use rfid_middleware_idro900e.Protocol.Commands.{cmd_version, cmd_stop, match_setting, match_ack}

-- Why there is no answer: the context is over, the connection, the command was not written, no reply in time.
pub data ProbeError : Type 0 where
  over lost not_sent timed_out : ProbeError

pub data ProbePhase : Type 0 where
  settling asking : ProbePhase
  found : Bytes → ProbePhase
  failed : ProbeError → ProbePhase

pub record Prober : Type 0 where
  pub phase : ProbePhase
  pub framer : Framer
  pub written : List Bytes

-- A chunk, the timer that runs, the end of the connection or of the context.
pub data ProbeEvent : Type 0 where
  arrives : Bytes → ProbeEvent
  timer lost_conn over_ctx : ProbeEvent

-- The firmware of the first reply to the question.
unfoldable pub first_version : List Bytes → Option Bytes
first_version [] = none
first_version (raw ∷ rest) =
    let more = first_version rest in
    if match_setting b'v' (parse raw) then some (parse raw).setting.value else more

-- The question; `fails` says which writes fail.
unfoldable pub ask : (ℕ → Bool) → Prober → Prober
ask fails st =
    if fails 1
    then record st { phase = failed not_sent }
    else record st { phase = asking; written = st.written ++ cmd_version ∷ [] }

abbrev pub by_version : Option Bytes → ProbePhase
by_version none = asking
by_version (some v) = found v

-- What a chunk does; a line behind the reply to Stop in the same chunk is dropped.
unfoldable pub on_bytes : (ℕ → Bool) → Bytes → Prober → ProbePhase → Prober
unfolding ask first_version
on_bytes fails bytes st settling =
    let (f, res) = push st.framer bytes in
    let st' = record st { framer = f } in
    if any (λ raw. match_ack b'3' (parse raw)) res.lines then ask fails st' else st'
on_bytes fails bytes st asking =
    let (f, res) = push st.framer bytes in
    record st { framer = f; phase = by_version (first_version res.lines) }
on_bytes fails bytes st (found v) = st
on_bytes fails bytes st (failed e) = st

unfoldable pub on_timer : (ℕ → Bool) → Prober → ProbePhase → Prober
unfolding ask
on_timer fails st settling = ask fails st
on_timer fails st asking = record st { phase = failed timed_out }
on_timer fails st (found v) = st
on_timer fails st (failed e) = st

unfoldable pub end_probe : ProbeError → Prober → ProbePhase → Prober
end_probe e st (found v) = st
end_probe e st (failed d) = st
end_probe e st p = record st { phase = failed e }

unfoldable pub probe_step : (ℕ → Bool) → ProbeEvent → Prober → Prober
unfolding on_bytes on_timer end_probe
probe_step fails (arrives bytes) st = on_bytes fails bytes st st.phase
probe_step fails timer st = on_timer fails st st.phase
probe_step fails lost_conn st = end_probe lost st st.phase
probe_step fails over_ctx st = end_probe over st st.phase

-- The start: Stop is written, and an error of that is ignored.
unfoldable pub open_probe : (ℕ → Bool) → Prober
open_probe fails = record {
  phase = settling;
  framer = new_framer (pos default_max_line);
  written = if fails 0 then [] else cmd_stop ∷ [];
}

-- `Probe`, once the connection is there.
unfoldable pub run_probe : (ℕ → Bool) → List ProbeEvent → Prober → Prober
unfolding probe_step
run_probe fails [] st = st
run_probe fails (e ∷ es) st = run_probe fails es (probe_step fails e st)
