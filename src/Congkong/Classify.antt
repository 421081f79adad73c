-- ===== src/Congkong/Classify.antt =====
-- `Classify` of internal/congkong/classifier.go, and the result of a request, from client.go, which it reads.
pub mod Exact
use rfid_middleware_idro900e.Prelude.{
  ℕ, String, Bool, true, false, Option, ◌==◌, leb, str_eq, if◌then◌else◌,
}
use rfid_middleware_idro900e.Prelude.Int.{ℤ}
use rfid_middleware_idro900e.Domain.{
  DeliveryDecision, complete, drop, retry, suspend_reader, halt_global,
}
use rfid_middleware_idro900e.Congkong.Json.{Json}
use rfid_middleware_idro900e.Congkong.Decode.{
  ErrorEnvelope, decode_envelope, env_result, data_says, says_success,
}
use rfid_middleware_idro900e.Congkong.Class

-- The result of one request. The body is the JSON value that it writes, if it writes one; of an error
-- only its presence matters. The skew is in nanoseconds, where the answer has a date.
pub record HttpResult : Type 0 where
  pub status : ℕ
  pub body : Option Json
  pub body_err : Bool
  pub transport_err : Bool
  pub date_skew : Option ℤ

abbrev pub Verdict : Type 0
Verdict = DeliveryDecision × String

-- The branch of a 400 answer, by its message.
abbrev bad_request : String → Verdict
bad_request m =
    if str_eq m "checkedAt must be RFC3339"
    then (drop, Class.checked_at_format)
    else if str_eq m "checkedAt out of range"
    then (drop, Class.checked_at_range)
    else if str_eq m "error bind"
    then (halt_global, Class.request_bind_bug)
    else if str_eq m "barcodeString or invitationCode required"
    then (drop, Class.empty_uid_bug)
    else (drop, Class.unknown_4xx)

-- The answer was read to its end.
abbrev by_status : ℕ → Option Json → Verdict
by_status status body =
    if status == 200
    then if says_success body
      then (complete, Class.checkin_success)
      else (drop, Class.protocol_anomaly_2xx)
    else if status == 409
    then if data_says body "success:duplication"
      then (complete, Class.duplicate_success)
      else (drop, Class.unknown_4xx)
    else if status == 404
    then if data_says body "fail:barcode-not-found"
      then (drop, Class.barcode_not_found)
      else (suspend_reader, Class.token_revoked)
    else if status == 406
    then if str_eq (env_result body) "fail:barcode-invalid"
      then (drop, Class.barcode_invalid)
      else (drop, Class.unknown_4xx)
    else if status == 424
    then if str_eq (env_result body) "fail:barcode-no-owner"
      then (drop, Class.barcode_no_owner)
      else (drop, Class.unknown_4xx)
    else if status == 403
    then if str_eq (env_result body) "fail:condition"
      then (drop, Class.condition_failed)
      else (drop, Class.unknown_4xx)
    else if status == 400
    then bad_request (decode_envelope body).message
    else if leb 500 status
    then (retry, Class.server_5xx)
    else if leb 400 status
    then (drop, Class.unknown_4xx)
    else (drop, Class.protocol_anomaly_2xx)

unfoldable pub classify : HttpResult → Verdict
classify r =
    if r.transport_err
    then (retry, Class.network_failure)
    else if r.body_err
    then (retry, Class.response_lost)
    else by_status r.status r.body
