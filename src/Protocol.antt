-- ===== src/Protocol.antt =====
-- protocol.py and execution.py: the values that cross a transport, as the modelled code reads them.
-- A JSON object is its canonical text: the code only stores, copies and compares such values.
-- A UUID is a number, and an instant a count of microseconds.
use outlabs_taskq.Prelude.{ℕ, zero, suc, ◌*◌, Bool, true, false, String, Option, none, some, List}

abbrev pub Json : Type 0
Json = String

-- timedelta(seconds=n)
abbrev pub seconds : ℕ → ℕ
seconds n = n * 1000000

-- `value or default` on an optional number
abbrev pub or_default : Option ℕ → ℕ → ℕ
or_default none d = d
or_default (some zero) d = d
or_default (some (suc n)) d = suc n

-- `value or default` on an optional text
abbrev pub text_or : Option String → String → String
text_or none d = d
text_or (some s) d = s

pub data JobStatus : Type 0 where
  blocked queued running succeeded failed cancelled : JobStatus

abbrev pub is_terminal : JobStatus → Bool
is_terminal succeeded = true
is_terminal failed = true
is_terminal cancelled = true
is_terminal _ = false

abbrev pub is_blocked : JobStatus → Bool
is_blocked blocked = true
is_blocked _ = false

abbrev pub is_queued : JobStatus → Bool
is_queued queued = true
is_queued _ = false

abbrev pub is_running : JobStatus → Bool
is_running running = true
is_running _ = false

abbrev pub is_succeeded : JobStatus → Bool
is_succeeded succeeded = true
is_succeeded _ = false

abbrev pub is_failed : JobStatus → Bool
is_failed failed = true
is_failed _ = false

abbrev pub is_cancelled : JobStatus → Bool
is_cancelled cancelled = true
is_cancelled _ = false

pub data BackoffMode : Type 0 where
  fixed exponential : BackoffMode

pub record EnqueueCommand : Type 0 where
  pub queue : String
  pub job_type : String
  pub payload : Json
  pub priority : Option ℕ
  pub scheduled_at : Option ℕ
  pub idempotency_key : Option String
  pub concurrency_key : Option String
  pub affinity_key : Option String
  pub max_attempts : Option ℕ
  pub lease_seconds : Option ℕ
  pub backoff_mode : Option BackoffMode
  pub backoff_base : Option ℕ
  pub backoff_cap : Option ℕ
  pub workflow_id : Option ℕ
  pub step_key : Option String
  pub depends_on : Option (List ℕ)
  pub headers : Option Json
  pub ttl_seconds : Option ℕ
  pub flow_key : Option String

pub record EnqueueManyItem : Type 0 where
  pub job_type : String
  pub payload : Json
  pub priority : Option ℕ
  pub scheduled_at : Option ℕ
  pub idempotency_key : Option String
  pub concurrency_key : Option String
  pub affinity_key : Option String
  pub max_attempts : Option ℕ
  pub lease_seconds : Option ℕ
  pub backoff_mode : Option BackoffMode
  pub backoff_base : Option ℕ
  pub backoff_cap : Option ℕ
  pub headers : Option Json
  pub workflow_id : Option ℕ
  pub step_key : Option String
  pub ttl_seconds : Option ℕ
  pub flow_key : Option String

-- Created or existed, with what the two result classes share.
pub data EnqueueStatus : Type 0 where
  created existed : EnqueueStatus

pub record EnqueueResult : Type 0 where
  pub status : EnqueueStatus
  pub job_id : ℕ
  pub queue : String
  pub job_type : String
  pub idempotency_key : Option String
  pub scheduled_at : Option ℕ

pub record Followup : Type 0 where
  pub step : String
  pub job_type : String
  pub queue : Option String
  pub payload : Json
  pub headers : Json
  pub priority : Option ℕ
  pub max_attempts : Option ℕ
  pub lease_seconds : Option ℕ
  pub scheduled_at : Option ℕ
  -- `workflow_member is True`
  pub workflow_member : Bool

-- What a handler's end asks for.
pub data HandlerResult : Type 0 where
  complete : (result : Json) (followups : List Followup) → HandlerResult
  snooze : (delay_seconds : ℕ) (reason : Option String) (progress : Option Json) → HandlerResult
  cancel : (reason : String) → HandlerResult
  retry :
      (after_seconds : Option ℕ) (error : Option String) (progress : Option Json) → HandlerResult
  non_retryable : (error : String) (progress : Option Json) → HandlerResult

pub data SettleCommand : Type 0 where
  complete fail snooze release cancel_running : SettleCommand

pub data SettleOutcome : Type 0 where
  ok retry_scheduled dead already_settled settle_conflict lost : SettleOutcome

pub record SettleResult : Type 0 where
  pub result : SettleOutcome
  pub job_status : Option JobStatus
  pub scheduled_at : Option ℕ

pub record ClaimedJob : Type 0 where
  pub job_id : ℕ
  pub queue : String
  pub job_type : String
  pub priority : ℕ
  pub payload : Json
  pub headers : Json
  pub attempt_id : ℕ
  pub attempt_number : ℕ
  pub failure_count : ℕ
  pub max_attempts : ℕ
  pub lease_expires_at : ℕ
  pub lease_seconds : ℕ
  pub workflow_id : Option ℕ
  pub step_key : Option String
  pub continuation_policy_hash : Option String

pub data ClaimState : Type 0 where
  claimed empty paused throttled unknown_queue unavailable : ClaimState

pub record ClaimResult : Type 0 where
  pub state : ClaimState
  pub jobs : List ClaimedJob

pub data WorkflowKind : Type 0 where
  dag batch : WorkflowKind

pub data WorkflowStatus : Type 0 where
  running succeeded failed cancelled : WorkflowStatus

abbrev pub kind_beq : WorkflowKind → WorkflowKind → Bool
kind_beq dag dag = true
kind_beq batch batch = true
kind_beq _ _ = false

abbrev pub is_workflow_running : WorkflowStatus → Bool
is_workflow_running running = true
is_workflow_running _ = false

abbrev pub command_beq : SettleCommand → SettleCommand → Bool
command_beq complete complete = true
command_beq fail fail = true
command_beq snooze snooze = true
command_beq release release = true
command_beq cancel_running cancel_running = true
command_beq _ _ = false

-- AdmissionJobCommand
pub record AdmissionJob : Type 0 where
  pub job_type : String
  pub payload : Json
  pub priority : Option ℕ
  pub scheduled_at : Option ℕ
  pub concurrency_key : Option String
  pub affinity_key : Option String
  pub max_attempts : Option ℕ
  pub lease_seconds : Option ℕ
  pub backoff_mode : Option BackoffMode
  pub backoff_base : Option ℕ
  pub backoff_cap : Option ℕ
  pub headers : Option Json

pub data ScheduleState : Type 0 where
  active paused retired : ScheduleState

pub data CatchupPolicy : Type 0 where
  skip fire_once fire_all : CatchupPolicy

pub record ScheduleTarget : Type 0 where
  pub queue : String
  pub job_type : String
  pub payload : Json
  pub headers : Json
  pub priority : Option ℕ
  pub max_attempts : Option ℕ
  pub lease_seconds : Option ℕ
  pub backoff_mode : Option BackoffMode
  pub backoff_base : Option ℕ
  pub backoff_cap : Option ℕ
  pub concurrency_key : Option String
  pub affinity_key : Option String

pub data Recurrence : Type 0 where
  interval : (interval_seconds : ℕ) → Recurrence
  cron : (expression timezone : String) → Recurrence

pub record ScheduleDefinition : Type 0 where
  pub target : ScheduleTarget
  pub recurrence : Recurrence
  pub catchup_policy : CatchupPolicy
  pub max_catchup : ℕ
  pub paused : Bool

pub data ActionOutcome : Type 0 where
  initialized fired skipped error_recorded stale : ActionOutcome

pub record ScheduleActionResult : Type 0 where
  pub outcome : ActionOutcome
  pub replayed : Bool
  pub schedule_id : ℕ
  pub jobs_enqueued : ℕ
  pub next_fire_at : ℕ
  pub state : ScheduleState
  pub version : ℕ
