-- ===== src/Worker/Results.antt =====
-- worker.py: what a handler's end becomes, `_normalize_handler_result`.
pub mod Followups
use outlabs_taskq.Prelude.{Bool, true, false, String, Option, none, some, List, []}
use outlabs_taskq.Protocol.{Json, Followup, HandlerResult, complete, cancel, retry, non_retryable}
use outlabs_taskq.Registry.{
  Task, TaskRegistry, Checked, accepted, refused, RegistryError, normalize_followups,
}
use outlabs_taskq.Continuations.{CompiledPolicy, enforce}

-- The value of a handler: one of HANDLER_RESULT_TYPES, or another one, `none` for None.
pub data HandlerValue : Type 0 where
  result : HandlerResult → HandlerValue
  plain : Option Json → HandlerValue

-- TaskCancelled with the text of its reason, or another exception with its safe text.
pub data HandlerError : Type 0 where
  task_cancelled diagnostic : String → HandlerError

-- A result, or an exception: the ValidationError of the output or one of the registry's.
pub data Normalized : Type 0 where
  normalized : HandlerResult → Normalized
  invalid_output : Normalized
  refused_followups : RegistryError → Normalized

-- `validate_output` is the dump of the task's output model, where that accepts a value, and
-- `is_retry_off` is `task.retry is False`.
module _ (registry : TaskRegistry) (task : Task) (validate_output : Json → Option Json)
    (is_retry_off : Bool) (policy : Option CompiledPolicy) where
  unfoldable pub of_error : HandlerError → HandlerResult
  of_error (task_cancelled reason) = cancel reason
  of_error (diagnostic text) = elim is_retry_off [
    | true ↦ non_retryable text none
    | false ↦ retry none (some text) none
  ]

  abbrev pub with_enforced : Json → Checked (List Followup) → Normalized
  with_enforced output (accepted followups) = normalized (complete output followups)
  with_enforced output (refused e) = refused_followups e

  unfoldable pub with_followups : Json → Checked (List Followup) → Normalized
  unfolding enforce
  with_followups output (accepted followups) = with_enforced output (enforce task followups policy)
  with_followups output (refused e) = refused_followups e

  unfoldable pub with_output : List Followup → Option Json → Normalized
  unfolding with_followups normalize_followups
  with_output followups none = invalid_output
  with_output followups (some output) =
      with_followups output (normalize_followups registry task followups)

  abbrev pub plain_output : Option Json → Normalized
  plain_output none = invalid_output
  plain_output (some output) = normalized (complete output [])

  abbrev or_empty : Option Json → Json
  or_empty none = "{}"
  or_empty (some value) = value

  unfoldable pub of_value : HandlerValue → Normalized
  unfolding with_output
  of_value (plain value) = plain_output (validate_output (or_empty value))
  of_value (result (complete output followups)) = with_output followups (validate_output output)
  of_value (result r) = normalized r

  unfoldable pub normalize_handler_result : HandlerValue → Option HandlerError → Normalized
  unfolding of_error of_value
  normalize_handler_result value (some error) = normalized (of_error error)
  normalize_handler_result value none = of_value value
