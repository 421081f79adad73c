-- ===== src/Tests/Watching.antt =====
-- Runs of the clock, the log, the probe, the network and the check of a site.
use mathlib.Core.List.{Memᴰ, flatten}
use rfid_middleware_idro900e.Prelude.{
  true, false, List, [], ◌∷◌, map, String, Option, none, some, ◌≡◌, ◌≢◌, refl, arith, Bytes, inl,
  codes, All,
}
use rfid_middleware_idro900e.Prelude.Int.{pos}
use rfid_middleware_idro900e.Protocol.Commands.{decimal}
use rfid_middleware_idro900e.Protocol.Cut.{cut_at}
use rfid_middleware_idro900e.Protocol.Framer.Frames.{ready}
use rfid_middleware_idro900e.Session.Probe.{
  Prober, asking, arrives, first_version, by_version, run_probe, open_probe,
}
use rfid_middleware_idro900e.Session.Probe.Answer.{probe_answers}
use rfid_middleware_idro900e.Domain.{GateMeta}
use rfid_middleware_idro900e.Congkong.Json.{end, unmarshal, into_struct, into_members, names}
use rfid_middleware_idro900e.Congkong.Ignores.{meta_body}
use rfid_middleware_idro900e.Congkong.Decode.{preflight_meta, set_meta}
use rfid_middleware_idro900e.Gui.Wizard.{
  pass, Observed, confirmed, result, run, run_steps, one_step, step_2,
}
use rfid_middleware_idro900e.Gui.Wizard.Guard.{IsConfirmed, trial_follows_preflight}
use rfid_middleware_idro900e.Clock.{Fake, new_fake, after}
use rfid_middleware_idro900e.Net.{Ip}
use rfid_middleware_idro900e.Logging.{
  text, other, Fields, redact, latest_log_file, first_file, rotated_file, text_lt,
}
use rfid_middleware_idro900e.Logging.Masked.{IsSafe, redact-IsSafe}
use rfid_middleware_idro900e.Logging.Rotated.{rotated_unseen}

-- Two timers, the second of which is too far away.
abbrev clock : Fake
clock = after (pos 9) (after (pos 2) (new_fake 100))

abbrev reader_ip : Ip
reader_ip = record { a = 192; b = 168; c = 9; d = 100 }

abbrev parse_ip : Bytes → Option Ip
parse_ip s = some reader_ip

abbrev fields : Fields
fields = ("token", text (codes "abc")) ∷ ("epc", text (codes "E200470D0000")) ∷ ("n", other) ∷ []

redact-IsSafe_example : All IsSafe (redact fields)
redact-IsSafe_example = redact-IsSafe fields

abbrev date : Bytes
date = codes "20260902"

abbrev log_names : List Bytes
log_names = first_file date ∷ rotated_file date 1 ∷ rotated_file date 2 ∷ []

rotated_unseen_example : first_file date ≢ rotated_file date 2
unfolding latest_log_file text_lt decimal
rotated_unseen_example = rotated_unseen date 2 log_names (first_file date) (Memᴰ.head refl) refl

abbrev probing : Prober
probing = record (open_probe (λ n. false)) { phase = asking; framer = ready 64 [] }

abbrev version_line : Bytes
version_line = b'>' ∷ b'9' ∷ b'v' ∷ b'1' ∷ b'2' ∷ []

abbrev cut_up : List Bytes
cut_up = (b'>' ∷ b'9' ∷ []) ∷ (b'v' ∷ b'1' ∷ b'2' ∷ b'\r' ∷ []) ∷ (b'\n' ∷ b'>' ∷ []) ∷ []

probe_answers_example :
    (run_probe (λ n. false) (map arrives cut_up) probing).phase
    ≡ by_version (first_version (version_line ∷ []))
unfolding flatten cut_at
probe_answers_example =
    probe_answers (λ n. false) 64 cut_up (version_line ∷ []) (b'>' ∷ []) probing refl refl refl
      ((refl, omega arith), tt) refl (omega arith)

abbrev meta : GateMeta
meta = record { event_name = "E"; booth_name = "B"; unit_name = "U"; cooldown_sec = pos 60 }

-- Everything is well, and a tag is checked in.
abbrev observed : Observed
observed = record {
  cancelled = false;
  site = record {
    config_err = false;
    disk_err = false;
    ntp_supported = false;
    service_running = false;
    query_ok = false;
    skew_sec = none;
    no_catalog = false;
  };
  addr = "10.0.0.5:5578";
  core_running = true;
  conn_state = "CONNECTED";
  probe_rtt = none;
  has_token = true;
  client_err = false;
  answer = record {
    status = 200;
    body = meta_body meta end;
    body_err = false;
    transport_err = false;
    date_skew = none;
  };
  confirm = confirmed;
  watch = result "r2" 404 ∷ result "r1" 200 ∷ [];
  self_test = record { no_reader = false; bad_config = false; status = 404; class = ""; depth = 0 };
}

trial_follows_preflight_example :
    (x : Observed) × Memᴰ {A = String × Observed} ("2", x) (("1", observed) ∷ ("2", observed) ∷ [])
    × IsConfirmed x
unfolding run run_steps one_step step_2 preflight_meta unmarshal into_struct into_members set_meta
    names
trial_follows_preflight_example =
    trial_follows_preflight "r1" (("1", observed) ∷ ("2", observed) ∷ []) [] "3a" observed
      (record { id = "3a"; status = pass }) (inl refl) (inl refl) refl
