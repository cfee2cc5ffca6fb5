-- ===== src/Examples/HttpClient.antt =====
-- Concrete inputs for the theorems on the HTTP client.
use outlabs_taskq.Prelude.{
  ℕ, zero, suc, ◌+◌, ◌≤◌, ◌≡◌, refl, false, String, none, some, [], ◌∷◌, string_eq,
}
use outlabs_taskq.Dict.{get}
use outlabs_taskq.Errors.{TaskqError, TqCode, registry, class_code}
use outlabs_taskq.Http.Json.{
  Json, null, object, Fields, no_fields, field, string, has, lookup, holds, is_true,
}
use outlabs_taskq.Http.Client.{
  RetryClass, HttpCommandSpec, Response, WireCode, ErrorEnvelope, Library, taskq, success, failed,
  can_retry,
}
use outlabs_taskq.Http.Client.Decode.{decode_envelope, decode_body, decode_command}
use outlabs_taskq.Http.Client.Decode.Failures.{decode_envelope-code}
use outlabs_taskq.Http.Client.Send.{
  is_retryable, Attempts, Exchange, request, send_loop, send_round, exchange_round,
}
use outlabs_taskq.Http.Client.Send.Sends.{request-once}
use outlabs_taskq.Http.Client.Send.Success.{IsServed, request-IsServed}

-- The error code of every body is TQ409, and every outcome is "created".
abbrev library : Library
library = record {
  validate_error = λ raw. some (record {
    request_id = "r1";
    code = WireCode.tq TqCode.conflict;
    retryable = false;
    details = [];
  });
  validate_command =
      λ raw. some (record { request_id = "r1"; outcome = "created"; data_fields = no_fields });
  to_float = λ s. none;
  lower = λ s. s;
  is_part = λ a b. false;
  show = λ n. "";
  uniform = λ low high. low;
}

abbrev enqueue_spec : HttpCommandSpec
enqueue_spec = record {
  outcomes = ("created", 201) ∷ [];
  retry_class = RetryClass.keyed_enqueue;
  has_etag = false;
}

abbrev created : Response
created = record {
  status = 201;
  protocol_version = some "1";
  request_id = some "r1";
  etag = none;
  retry_after = none;
  body = some (object no_fields);
}

abbrev keyed : Fields
keyed = field "idempotency_key" (string "k") no_fields

-- The first attempt is lost on the way, the second one is answered.
abbrev exchange_at : ℕ → String → Exchange
exchange_at zero id = Exchange.transport_failed
exchange_at (suc k) id = Exchange.answered created

abbrev world : Attempts
world = record { is_closed = λ k. false; request_id = λ k. some "r1"; exchange = exchange_at }

keyless : can_retry enqueue_spec no_fields ≡ false
unfolding can_retry holds lookup
keyless = refl

request-once_example : (request library 3 enqueue_spec no_fields world).sends ≤ 1
request-once_example = request-once library 3 enqueue_spec no_fields world keyless

second_succeeds :
    (request library 3 enqueue_spec keyed world).result ≡ success "created" no_fields "r1"
unfolding request send_loop send_round exchange_round can_retry holds lookup is_true decode_envelope
    decode_body decode_command get
second_succeeds = refl

request-IsServed_example : IsServed enqueue_spec world (3 + 1) "created" no_fields "r1"
request-IsServed_example =
    request-IsServed library 3 enqueue_spec keyed world "created" no_fields "r1" second_succeeds

abbrev conflicting : Response
conflicting = record created { status = 409; body = some (object (field "error" null no_fields)) }

abbrev envelope : ErrorEnvelope
envelope = record {
  request_id = "r1";
  code = WireCode.tq TqCode.conflict;
  retryable = false;
  details = [];
}

decode_envelope-code_example :
    (e : TaskqError Json) × (decode_envelope library enqueue_spec "r1" conflicting
      ≡ failed (taskq e))
    × (class_code e.error ≡ TqCode.conflict)
    × (e.retryable ≡ (registry TqCode.conflict).retryable)
    × (is_retryable (taskq e) ≡ (registry TqCode.conflict).retryable)
unfolding has lookup registry
decode_envelope-code_example =
    decode_envelope-code library enqueue_spec "r1" conflicting (field "error" null no_fields)
      envelope TqCode.conflict refl refl refl refl refl refl refl refl refl
