-- ===== src/Congkong/Class.antt =====
-- The classes of internal/congkong/classifier.go, without their prefix.
use rfid_middleware_idro900e.Prelude.{String}

abbrev pub checkin_success : String
checkin_success = "CHECKIN_SUCCESS"

abbrev pub response_lost : String
response_lost = "RESPONSE_LOST"

abbrev pub protocol_anomaly_2xx : String
protocol_anomaly_2xx = "PROTOCOL_ANOMALY_2XX"

abbrev pub duplicate_success : String
duplicate_success = "CHECKIN_DUPLICATE_SUCCESS"

abbrev pub barcode_not_found : String
barcode_not_found = "BARCODE_NOT_FOUND"

abbrev pub token_revoked : String
token_revoked = "TOKEN_REVOKED_OR_INVALID"

abbrev pub barcode_invalid : String
barcode_invalid = "BARCODE_INVALID"

abbrev pub barcode_no_owner : String
barcode_no_owner = "BARCODE_NO_OWNER"

abbrev pub condition_failed : String
condition_failed = "CONDITION_FAILED"

abbrev pub checked_at_format : String
checked_at_format = "CHECKED_AT_FORMAT"

abbrev pub checked_at_range : String
checked_at_range = "CHECKED_AT_RANGE"

abbrev pub request_bind_bug : String
request_bind_bug = "REQUEST_BIND_BUG"

abbrev pub empty_uid_bug : String
empty_uid_bug = "EMPTY_UID_BUG"

abbrev pub unknown_4xx : String
unknown_4xx = "UNKNOWN_4XX"

abbrev pub server_5xx : String
server_5xx = "SERVER_5XX"

abbrev pub network_failure : String
network_failure = "NETWORK_FAILURE"
