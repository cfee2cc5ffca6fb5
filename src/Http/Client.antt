-- ===== src/Http/Client.antt =====
-- http/client.py: the request loop, its retries and the decoding of a response.
pub mod Decode
pub mod Send
use outlabs_taskq.Prelude.{
  ℕ, ◌*◌, ◌^◌, min, Bool, true, false, ◌&&◌, ◌||◌, ◌==◌, String, Option, none, some, [], ◌∷◌,
  if◌then◌else◌, string_eq, nat_eq, option_eq,
}
use outlabs_taskq.Dict.{Dict}
use outlabs_taskq.Errors.{
  TqCode, Seconds, not_a_number, infinite, not_positive, positive, TaskqError, new_error,
  protocol_error,
}
use outlabs_taskq.Http.Json.{
  Json, string, array, object, Items, no_items, item, Fields, holds, lookup,
}

pub data RetryClass : Type 0 where
  never keyed_enqueue keyed_batch safe_idempotent worker_settlement : RetryClass

-- HttpCommandSpec, as far as the client's loop reads it. `has_etag` says that the command is
-- GET_SCHEDULE, PUT_SCHEDULE or RETIRE_SCHEDULE.
pub record HttpCommandSpec : Type 0 where
  pub outcomes : Dict String ℕ
  pub retry_class : RetryClass
  pub has_etag : Bool

-- A response: its status, four of its headers, and its body, `none` where it is no JSON.
pub record Response : Type 0 where
  pub status : ℕ
  pub protocol_version : Option String
  pub request_id : Option String
  pub etag : Option String
  pub retry_after : Option String
  pub body : Option Json

-- `auth401` and `auth403` are the literals of the gateway in front.
pub data WireCode : Type 0 where
  auth401 auth403 : WireCode
  tq : TqCode → WireCode

-- ErrorEnvelope, with the ProtocolError in it
pub record ErrorEnvelope : Type 0 where
  pub request_id : String
  pub code : WireCode
  pub retryable : Bool
  pub details : Dict String Json

-- CommandEnvelope[dict[str, Any]]
pub record CommandEnvelope : Type 0 where
  pub request_id : String
  pub outcome : String
  pub data_fields : Fields

-- What the client calls: Pydantic's validation of the two envelopes, `float`, `str.lower`, the
-- substring test, `str` of an int, and `random.uniform` over whole numbers of a unit.
pub record Library : Type 0 where
  pub validate_error : Json → Option ErrorEnvelope
  pub validate_command : Json → Option CommandEnvelope
  pub to_float : String → Option Seconds
  pub lower : String → String
  pub is_part : String → String → Bool
  pub show : ℕ → String
  pub uniform : ℕ → ℕ → ℕ

-- The exceptions: `crash` is a TypeError or an AssertionError of Python's, `config` a
-- TaskqConfigError.
pub data Failure : Type 0 where
  authentication authorization config : Failure
  taskq : TaskqError Json → Failure
  crash : (what : String) → Failure

pub data Decoded : Type 0 where
  success : (outcome : String) (fields : Fields) (request_id : String) → Decoded
  failed : Failure → Decoded

-- The body has a key that counts, as `_can_retry` reads it.
abbrev pub is_keyed : Fields → Bool
is_keyed body = holds "idempotency_key" body || (holds "workflow_id" body && holds "step_key" body)

abbrev pub item_is_keyed : Json → Bool
item_is_keyed (object fs) = holds "idempotency_key" fs
item_is_keyed _ = false

unfoldable pub all_keyed : Items → Bool
unfolding holds
all_keyed no_items = true
all_keyed (item x xs) = item_is_keyed x && all_keyed xs

unfoldable pub batch_is_keyed : Option Json → Bool
unfolding all_keyed
batch_is_keyed (some (array (item x xs))) = all_keyed (item x xs)
batch_is_keyed _ = false

-- An absent body is one without fields: both are false.
unfoldable pub can_retry : HttpCommandSpec → Fields → Bool
unfolding batch_is_keyed holds lookup
can_retry spec body = elim spec.retry_class [
  | safe_idempotent ↦ true
  | keyed_enqueue ↦ is_keyed body
  | keyed_batch ↦ batch_is_keyed (lookup "items" body)
  | never ↦ false
  | worker_settlement ↦ false
]

-- details={"reason": reason}
abbrev pub because : String → Dict String Json
because reason = ("reason", string reason) ∷ []

module _ (lib : Library) where
  -- Milliseconds; `max(0.0, min(x, 30.0))`.
  abbrev clamped : Option Seconds → ℕ
  clamped none = 0
  clamped (some not_a_number) = 0
  clamped (some infinite) = 30000
  clamped (some not_positive) = 0
  clamped (some (positive n)) = min n 30000

  abbrev header_seconds : Option String → ℕ
  header_seconds none = 0
  header_seconds (some value) = clamped (lib.to_float value)

  unfoldable pub retry_after_seconds : Response → ℕ
  retry_after_seconds r = header_seconds r.retry_after

  -- Milliseconds: min(0.25 * 2**attempt, 5.0)
  abbrev pub backoff_limit : ℕ → ℕ
  backoff_limit attempt = min (250 * 2 ^ attempt) 5000

  -- The delays are in microseconds.
  unfoldable pub backoff_delay : ℕ → ℕ
  backoff_delay attempt = lib.uniform 0 (1000 * backoff_limit attempt)

  unfoldable pub retry_delay : Response → ℕ → ℕ
  unfolding retry_after_seconds backoff_delay
  retry_delay r attempt =
      if retry_after_seconds r == 0
      then backoff_delay attempt
      else retry_after_seconds r * lib.uniform 1000 1500

  -- _retry_after_seconds(response) or None
  abbrev pub asked_delay : Response → Option Seconds
  asked_delay r =
      if retry_after_seconds r == 0 then none else some (positive (retry_after_seconds r))

  abbrev pub malformed : String → Decoded
  malformed reason = failed (taskq (new_error lib.lower protocol_error (because reason) none none))
