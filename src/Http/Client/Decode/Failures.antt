-- ===== src/Http/Client/Decode/Failures.antt =====
-- Which failure a response of http/client.py decodes to.
use outlabs_taskq.Prelude.{leb, true, String, some, string_eq, nat_eq, option_eq}
use outlabs_taskq.Errors.{
  TqCode, TaskqError, registry, text_of, class_code, backpressure, internal, unavailable,
  operator_denied, conflict, validation, queue_owner_denied, version, capability,
  taskq_error_from_code,
}
use outlabs_taskq.Errors.Codes.{error_from_code-code}
use outlabs_taskq.Http.Json.{Json, object, Fields, contained, has}
use outlabs_taskq.Http.Client.{
  HttpCommandSpec, Response, tq, ErrorEnvelope, Library, taskq, failed, asked_delay,
}
use outlabs_taskq.Http.Client.Send.{is_retryable, retryable_code}
use outlabs_taskq.Http.Client.Send.Sends.{retryable_code-registry}
use outlabs_taskq.Http.Client.Decode.{decode_envelope, decode_body, decode_error, decode_coded}
use outlabs_taskq.Prelude.{◌≡◌, ◌∙◌, ap, refl, arith, option_beq_iff}

registry-high : (c : TqCode) → leb 400 (registry c).http_status ≡ true
unfolding registry
registry-high TqCode.not_found = refl
registry-high operator_denied = refl
registry-high conflict = refl
registry-high validation = refl
registry-high queue_owner_denied = refl
registry-high version = refl
registry-high backpressure = refl
registry-high internal = refl
registry-high capability = refl
registry-high unavailable = refl

module _ (lib : Library) (spec : HttpCommandSpec) (sent : String) (r : Response) where
  decode_envelope-body :
      (raw : Json)
      → r.protocol_version ≡ some "1"
      → r.body ≡ some raw
      → decode_envelope lib spec sent r ≡ decode_body lib spec sent r raw
  unfolding decode_envelope
  decode_envelope-body raw versioned is_raw =
      ground (arith, versioned, is_raw, option_beq_iff r.protocol_version (some "1"))

  decode_body-error :
      (fs : Fields)
      → has "error" fs ≡ true
      → leb 400 r.status ≡ true
      → decode_body lib spec sent r (object fs)
        ≡ decode_error lib (lib.validate_error (object fs)) sent r
  unfolding decode_body contained
  decode_body-error fs keyed high = ground (arith, keyed, high)

  decode_error-coded :
      (env : ErrorEnvelope) (c : TqCode)
      → env.request_id ≡ sent
      → r.request_id ≡ some sent
      → env.code ≡ tq c
      → decode_error lib (some env) sent r ≡ decode_coded lib env c r
  unfolding decode_error
  decode_error-coded env c named echoed is_code = ground (
    arith,
    named,
    echoed,
    is_code,
    string_eq.is_exact env.request_id sent,
    option_beq_iff (some env.request_id) r.request_id,
  )

  decode_coded-error :
      (env : ErrorEnvelope) (c : TqCode)
      → r.status ≡ (registry c).http_status
      → env.retryable ≡ (registry c).retryable
      → decode_coded lib env c r
        ≡ failed
            (taskq (taskq_error_from_code lib.lower (text_of c) env.details (asked_delay lib r)))
  unfolding decode_coded
  decode_coded-error env c status retry = ground (arith, status, retry)

  -- A versioned error response, which echoes the request and has the status and the flag of its
  -- code, decodes to an error with that code, retryable as the registry says, which the request loop
  -- resends just if the registry calls the code retryable.
  pub decode_envelope-code :
      (fs : Fields) (env : ErrorEnvelope) (c : TqCode)
      → r.protocol_version ≡ some "1"
      → r.body ≡ some (object fs)
      → has "error" fs ≡ true
      → lib.validate_error (object fs) ≡ some env
      → env.request_id ≡ sent
      → r.request_id ≡ some sent
      → env.code ≡ tq c
      → r.status ≡ (registry c).http_status
      → env.retryable ≡ (registry c).retryable
      → (e : TaskqError Json) × (decode_envelope lib spec sent r ≡ failed (taskq e))
        × (class_code e.error ≡ c)
        × (e.retryable ≡ (registry c).retryable)
        × (is_retryable (taskq e) ≡ (registry c).retryable)
  unfolding is_retryable
  decode_envelope-code fs env c versioned is_raw keyed valid named echoed is_code status retry =
      let e : TaskqError Json =
        taskq_error_from_code lib.lower (text_of c) env.details (asked_delay lib r) in
      let high : leb 400 r.status ≡ true = ap (leb 400) status ∙ registry-high c in
      let (is_c, is_retry) = error_from_code-code lib.lower c env.details (asked_delay lib r) in
      (
        e,
        decode_envelope-body (object fs) versioned is_raw
            ∙ decode_body-error fs keyed high
            ∙ ap (λ o. decode_error lib o sent r) valid
            ∙ decode_error-coded env c named echoed is_code
            ∙ decode_coded-error env c status retry,
        is_c,
        is_retry,
        ap retryable_code is_c ∙ retryable_code-registry c,
      )
