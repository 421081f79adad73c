-- ===== src/Congkong/Decode.antt =====
-- The structs of internal/congkong/classifier.go and `domain.GateMeta`, and their decoding.
use rfid_middleware_idro900e.Prelude.{
  String, Bool, false, Option, none, some, ◌&&◌, str_eq, if◌then◌else◌,
}
use rfid_middleware_idro900e.Prelude.Int.{ℤ, pos}
use rfid_middleware_idro900e.Domain.{GateMeta, no_meta}
use rfid_middleware_idro900e.Congkong.Json.{
  Json, null, names, Decoded, into_string, into_int, into_struct, unmarshal,
}

pub record ResultOnly : Type 0 where
  pub result : String

pub record ErrorEnvelope : Type 0 where
  pub message : String
  pub code : ℤ
  pub data_of : Option ResultOnly

abbrev pub no_result : ResultOnly
no_result = record { result = "" }

abbrev pub no_envelope : ErrorEnvelope
no_envelope = record { message = ""; code = pos 0; data_of = none }

-- A member that no field is declared for is dropped.
unfoldable pub set_result : String → Json → ResultOnly → Decoded ResultOnly
set_result k j v =
    let d = into_string j v.result in
    if names "result" k
    then record { value = record { result = d.value }; mismatch = d.mismatch }
    else record { value = v; mismatch = false }

-- What a pointer points to before a value goes in: a fresh struct where it was nil.
abbrev or_fresh : Option ResultOnly → ResultOnly
or_fresh none = no_result
or_fresh (some v) = v

-- A value into a pointer: `null` makes it nil.
unfoldable pub into_pointer : Json → Option ResultOnly → Decoded (Option ResultOnly)
unfolding set_result into_struct
into_pointer null v = record { value = none; mismatch = false }
into_pointer j v =
    let d = into_struct set_result j (or_fresh v) in
    record { value = some d.value; mismatch = d.mismatch }

unfoldable pub set_envelope : String → Json → ErrorEnvelope → Decoded ErrorEnvelope
set_envelope k j v =
    let m = into_string j v.message in
    let c = into_int j v.code in
    let p = into_pointer j v.data_of in
    if names "message" k
    then record { value = record v { message = m.value }; mismatch = m.mismatch }
    else if names "code" k
    then record { value = record v { code = c.value }; mismatch = c.mismatch }
    else if names "data" k
    then record { value = record v { data_of = p.value }; mismatch = p.mismatch }
    else record { value = v; mismatch = false }

unfoldable pub set_meta : String → Json → GateMeta → Decoded GateMeta
set_meta k j v =
    let e = into_string j v.event_name in
    let b = into_string j v.booth_name in
    let u = into_string j v.unit_name in
    let c = into_int j v.cooldown_sec in
    if names "eventName" k
    then record { value = record v { event_name = e.value }; mismatch = e.mismatch }
    else if names "boothName" k
    then record { value = record v { booth_name = b.value }; mismatch = b.mismatch }
    else if names "unitName" k
    then record { value = record v { unit_name = u.value }; mismatch = u.mismatch }
    else if names "cooldownSec" k
    then record { value = record v { cooldown_sec = c.value }; mismatch = c.mismatch }
    else record { value = v; mismatch = false }

-- `decodeEnvelope`: what was decoded counts, mismatch or not.
unfoldable pub decode_envelope : Option Json → ErrorEnvelope
decode_envelope body = (unmarshal set_envelope body no_envelope).value

-- `env.Data.Result`, and the empty text without a `Data`.
abbrev pub result_of : Option ResultOnly → String
result_of none = ""
result_of (some d) = d.result

-- `envResult`
unfoldable pub env_result : Option Json → String
env_result body = result_of (decode_envelope body).data_of

-- `env.Data != nil && env.Data.Result == text`
unfoldable pub says : Option ResultOnly → String → Bool
says none text = false
says (some d) text = str_eq d.result text

unfoldable pub data_says : Option Json → String → Bool
data_says body text = says (decode_envelope body).data_of text

-- The test of a 200 answer: no error, and the top-level result says success.
unfoldable pub says_success : Option Json → Bool
says_success body =
    let d = unmarshal set_result body no_result in
    if d.mismatch then false else str_eq d.value.result "success"

-- `PreflightMeta`
unfoldable pub preflight_meta : Option Json → Option GateMeta
preflight_meta body =
    let d = unmarshal set_meta body no_meta in
    if d.mismatch
    then none
    else if str_eq d.value.booth_name ""
        && str_eq d.value.event_name ""
        && str_eq d.value.unit_name ""
    then none
    else some d.value
