-- ===== src/Tests/Answers.antt =====
-- Runs of the decoding and the classification of internal/congkong.
use rfid_middleware_idro900e.Prelude.{ℕ, false, none, some, Option}
use rfid_middleware_idro900e.Prelude.Int.{pos}
use rfid_middleware_idro900e.Domain.{GateMeta}
use rfid_middleware_idro900e.Congkong.Json.{Json, obj, str, Members, end, member}
use rfid_middleware_idro900e.Congkong.Classify.{HttpResult}
use rfid_middleware_idro900e.Congkong.Classify.Exact.{Exact, classify_exact}

abbrev answer : ℕ → Option Json → HttpResult
answer status body = record {
  status = status;
  body = body;
  body_err = false;
  transport_err = false;
  date_skew = none;
}

-- {"data": {"result": "fail:barcode-not-found"}}
abbrev not_found : Members
not_found = member "data" (obj (member "result" (str "fail:barcode-not-found") end)) end

abbrev unpaired : HttpResult
unpaired = answer 404 (some (obj not_found))

classify_exact_example : Exact unpaired
classify_exact_example = classify_exact unpaired

abbrev meta : GateMeta
meta = record { event_name = "E"; booth_name = "B"; unit_name = "U"; cooldown_sec = pos 60 }
