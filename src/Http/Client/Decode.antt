-- ===== src/Http/Client/Decode.antt =====
-- http/client.py: the decoding of a response.
pub mod Answers
pub mod Failures
use outlabs_taskq.Prelude.{
  ◌-◌, leb, Bool, true, false, not, ◌&&◌, ◌||◌, ◌==◌, String, Option, none, some, [], ◌∷◌,
  if◌then◌else◌, contains, string_eq, nat_eq, option_eq,
}
use outlabs_taskq.Dict.{Dict, get}
use outlabs_taskq.Errors.{
  TqCode, ErrorType, new_error, internal_error, unavailable_error, registry, text_of,
  taskq_error_from_code,
}
use outlabs_taskq.Http.Json.{Json, integer, string, Fields, lookup, contained}
use Prim.Native.String.{◌++◌ as join}
use outlabs_taskq.Http.Client.{
  HttpCommandSpec, Response, auth401, auth403, tq, ErrorEnvelope, CommandEnvelope, Library,
  authentication, authorization, taskq, crash, Decoded, success, failed, retry_after_seconds,
  asked_delay, malformed, because,
}

abbrev pub bad_header : String
bad_header = "missing_or_invalid_protocol_header"

abbrev pub is_echoed : String → String → Response → Bool
is_echoed envelope_id sent r = some envelope_id == r.request_id && envelope_id == sent

abbrev same : Bool → Bool → Bool
same true b = b
same false b = not b

-- ETag of an int version; a bool is none
abbrev has_version : Option Json → Option String → Bool
has_version (some (integer version)) etag =
    etag == some (join "\"taskq-schedule-" (join version "\""))
has_version _ etag = false

abbrev pub is_tagged : HttpCommandSpec → Fields → Response → Bool
is_tagged spec fields r = not spec.has_etag || has_version (lookup "version" fields) r.etag

abbrev type_error : Decoded
type_error = failed (crash "TypeError")

module _ (lib : Library) where
  unfoldable pub error_of : ErrorType → Dict String Json → Response → Decoded
  unfolding new_error retry_after_seconds
  error_of error details r =
      failed (taskq (new_error lib.lower error details none (asked_delay lib r)))

  -- The answer of something in front of the service.
  unfoldable pub decode_unversioned : Response → Decoded
  unfolding error_of new_error contains
  decode_unversioned r =
      if contains r.status (502 ∷ 503 ∷ 504 ∷ [])
      then error_of unavailable_error
          (("reason", string "upstream_unavailable") ∷ ("status", integer (lib.show r.status)) ∷ [])
          r
      else if leb 500 r.status || contains r.status (408 ∷ 425 ∷ 429 ∷ [])
      then failed (taskq (new_error lib.lower internal_error (because bad_header) none none))
      else malformed lib bad_header

  -- A TaskQ error with the code `c`.
  unfoldable pub decode_coded : ErrorEnvelope → TqCode → Response → Decoded
  unfolding registry taskq_error_from_code retry_after_seconds
  decode_coded env c r =
      if r.status == (registry c).http_status && same env.retryable (registry c).retryable
      then failed
          (taskq (taskq_error_from_code lib.lower (text_of c) env.details (asked_delay lib r)))
      else malformed lib "error_status_mismatch"

  unfoldable pub decode_error : Option ErrorEnvelope → String → Response → Decoded
  unfolding decode_coded
  decode_error none sent r = malformed lib "invalid_error_envelope"
  decode_error (some env) sent r =
      if is_echoed env.request_id sent r
      then elim env.code [
        | auth401 ↦ failed authentication
        | auth403 ↦ failed authorization
        | tq c ↦ decode_coded env c r
      ]
      else malformed lib "request_id_mismatch"

  unfoldable pub decode_command :
      HttpCommandSpec → Option CommandEnvelope → String → Response → Decoded
  unfolding lookup get
  decode_command spec none sent r = malformed lib "invalid_command_envelope"
  decode_command spec (some env) sent r =
      if not (is_echoed env.request_id sent r)
      then malformed lib "request_id_mismatch"
      else if not (get env.outcome spec.outcomes == some r.status)
      then malformed lib "unexpected_outcome_or_status"
      else if not (is_tagged spec env.data_fields r)
      then malformed lib "schedule_etag_mismatch"
      else success env.outcome env.data_fields env.request_id

  unfoldable pub decode_body : HttpCommandSpec → String → Response → Json → Decoded
  unfolding decode_error decode_command contained
  decode_body spec sent r raw =
      if leb 400 r.status
      then elim (contained lib.is_part "error" raw) [
        | none ↦ type_error
        | some true ↦ decode_error (lib.validate_error raw) sent r
        | some false ↦ decode_command spec (lib.validate_command raw) sent r
      ]
      else decode_command spec (lib.validate_command raw) sent r

  unfoldable pub decode_envelope : HttpCommandSpec → String → Response → Decoded
  unfolding decode_body decode_unversioned
  decode_envelope spec sent r =
      if r.protocol_version == some "1"
      then elim r.body [
        | none ↦ malformed lib "invalid_json_envelope"
        | some raw ↦ decode_body spec sent r raw
      ]
      else decode_unversioned r
