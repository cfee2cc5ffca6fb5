-- ===== src/Errors.antt =====
-- errors.py: the public errors, and the error codes of protocol.py.
pub mod Chain
pub mod Codes
pub mod Exceptions
use outlabs_taskq.Prelude.{
  ℕ, Bool, true, false, not, ◌==◌, String, Option, none, some, List, [], ◌∷◌, contains,
  if◌then◌else◌, string_eq, nat_eq,
}
use outlabs_taskq.Dict.{Dict}

pub data TqCode : Type 0 where
  not_found operator_denied conflict validation queue_owner_denied : TqCode
  version backpressure internal capability unavailable : TqCode

-- str(code)
unfoldable pub text_of : TqCode → String
text_of TqCode.not_found = "TQ001"
text_of operator_denied = "TQ403"
text_of conflict = "TQ409"
text_of validation = "TQ422"
text_of queue_owner_denied = "TQ425"
text_of version = "TQ426"
text_of backpressure = "TQ429"
text_of internal = "TQ500"
text_of capability = "TQ501"
text_of unavailable = "TQ503"

abbrev pub codes : List TqCode
codes =
    not_found ∷ operator_denied ∷ conflict ∷ validation ∷ queue_owner_denied ∷ version
    ∷ backpressure ∷ internal ∷ capability ∷ unavailable ∷ []

unfoldable pub with_text : String → List TqCode → Option TqCode
unfolding text_of
with_text s [] = none
with_text s (c ∷ cs) = let rest = with_text s cs in if text_of c == s then some c else rest

-- TqCode(s), where `none` is the ValueError
unfoldable pub parse_code : String → Option TqCode
unfolding with_text
parse_code s = with_text s codes

-- TqErrorSpec
pub record ErrorSpec : Type 0 where
  pub http_status : ℕ
  pub retryable : Bool
  pub category : String

abbrev entry : ℕ → Bool → String → ErrorSpec
entry status retryable category = record {
  http_status = status;
  retryable = retryable;
  category = category;
}

-- TQ_ERROR_REGISTRY
unfoldable pub registry : TqCode → ErrorSpec
registry not_found = entry 404 false "resource not found"
registry operator_denied = entry 403 false "operator authorization denied"
registry conflict = entry 409 false "durable state conflict"
registry validation = entry 422 false "invalid command"
registry queue_owner_denied = entry 403 false "queue admission owner denied"
registry version = entry 426 false "unsupported version"
registry backpressure = entry 429 true "queue backpressure"
registry internal = entry 500 true "internal taskq failure"
registry capability = entry 501 false "capability not active"
registry unavailable = entry 503 true "taskq unavailable"

-- The subclasses of TaskqError that _ERROR_TYPES names, and the one that it does not.
pub data ErrorType : Type 0 where
  not_found_error operator_denied_error conflict_error validation_error : ErrorType
  queue_owner_denied_error version_error backpressure_error internal_error : ErrorType
  capability_error unavailable_error protocol_error : ErrorType

-- the class attribute `code`
unfoldable pub class_code : ErrorType → TqCode
class_code not_found_error = TqCode.not_found
class_code operator_denied_error = TqCode.operator_denied
class_code conflict_error = TqCode.conflict
class_code validation_error = TqCode.validation
class_code queue_owner_denied_error = TqCode.queue_owner_denied
class_code version_error = TqCode.version
class_code backpressure_error = TqCode.backpressure
class_code internal_error = TqCode.internal
class_code capability_error = TqCode.capability
class_code unavailable_error = TqCode.unavailable
class_code protocol_error = TqCode.internal

-- _ERROR_TYPES
unfoldable pub error_type : TqCode → ErrorType
error_type not_found = not_found_error
error_type operator_denied = operator_denied_error
error_type conflict = conflict_error
error_type validation = validation_error
error_type queue_owner_denied = queue_owner_denied_error
error_type version = version_error
error_type backpressure = backpressure_error
error_type internal = internal_error
error_type capability = capability_error
error_type unavailable = unavailable_error

-- A float: NaN, plus infinity, at most zero, or a number of milliseconds above it.
pub data Seconds : Type 0 where
  not_a_number infinite not_positive : Seconds
  positive : ℕ → Seconds

unfoldable pub normalized_retry_after : Option Seconds → Option Seconds
normalized_retry_after (some (positive n)) = some (positive n)
normalized_retry_after _ = none

abbrev pub sensitive_keys : List String
sensitive_keys =
    "attempt_id" ∷ "connection" ∷ "dsn" ∷ "query" ∷ "raw_sql" ∷ "sql" ∷ "statement" ∷ []

-- _safe_details, with `str.lower` as a parameter
unfoldable pub safe_details {ℓ} : {V : Type ℓ} → (String → String) → Dict String V → Dict String V
unfolding contains
safe_details lower [] = []
safe_details lower ((k, v) ∷ d) =
    let rest = safe_details lower d in
    if contains (lower k) sensitive_keys then rest else (k, v) ∷ rest

-- TaskqError: its class, its details, the exception that it wraps and the delay asked for
pub record TaskqError {ℓ} (V : Type ℓ) : Type ℓ where
  pub error : ErrorType
  pub details : Dict String V
  pub cause : Option ℕ
  pub retryable : Bool
  pub retry_after_seconds : Option Seconds

unfoldable pub new_error {ℓ} :
    {V : Type ℓ}
    → (String → String)
    → ErrorType
    → Dict String V
    → Option ℕ
    → Option Seconds
    → TaskqError V
unfolding class_code registry safe_details normalized_retry_after
new_error lower error details cause retry_after = record {
  error = error;
  details = safe_details lower details;
  cause = cause;
  retryable = (registry (class_code error)).retryable;
  retry_after_seconds = normalized_retry_after retry_after;
}

abbrev pub or_internal : Option TqCode → TqCode
or_internal none = TqCode.internal
or_internal (some code) = code

unfoldable pub taskq_error_from_code {ℓ} :
    {V : Type ℓ} → (String → String) → String → Dict String V → Option Seconds → TaskqError V
unfolding new_error error_type parse_code
taskq_error_from_code lower code details retry_after =
    new_error lower (error_type (or_internal (parse_code code))) details none retry_after
