-- ===== src/Fake/Settle.antt =====
-- The runner's settlement methods of testing.py, but `complete`: the fence, the replay of a command
-- and the end of an attempt.
pub mod Lifecycle
pub mod Budget
pub mod Fence
use outlabs_taskq.Prelude.{
  ◌-◌, ℕ, ◌+◌, Bool, true, false, ◌&&◌, String, Option, none, some, [], ◌∷◌, ◌++◌, ◌==◌,
  if◌then◌else◌, ltb, nat_eq, string_eq, pair_eq, option_eq,
}
use outlabs_taskq.Dict.{get, delete}
use outlabs_taskq.Effects.{
  crash, invalid_model, ok, pure, gets, modify, raise_if, ◌>>=◌, ◌>>◌, when,
}
use outlabs_taskq.Protocol.{
  Json, JobStatus, queued, failed, cancelled, EnqueueCommand, is_running, is_terminal,
  HandlerResult, SettleCommand, SettleOutcome, SettleResult, fail, retry_scheduled, dead,
  already_settled, settle_conflict, lost, command_beq, or_default, seconds, retry, non_retryable,
}
use outlabs_taskq.Fake.State.{
  Job, RecordedSettlement, Client, Act, Reading, read_clock, ensure_open, find_workflow, set_job,
}
use outlabs_taskq.Fake.Workflow.{advance_workflow}

-- `job.attempt_id != attempt_id or job.worker_id != worker_id` fails
abbrev pub holds : ℕ → String → Job → Bool
holds attempt worker job = job.attempt_id == some attempt && job.worker_id == some worker

abbrev attempt_of : ℕ → String → Option Job → Option Job
attempt_of attempt worker none = none
attempt_of attempt worker (some job) =
    if holds attempt worker job && is_running job.status then some job else none

-- _attempt
unfoldable pub find_attempt : ℕ → ℕ → String → Client → Option Job
find_attempt id attempt worker c = attempt_of attempt worker (get id c.jobs)

pub record HeartbeatResult : Type 0 where
  pub ok : Bool
  pub cancel_requested : Bool
  pub lease_expires_at : ℕ

abbrev is_some {ℓ} : {A : Type ℓ} → Option A → Bool
is_some none = false
is_some (some a) = true

cancel_of : Option ℕ → Act Bool
cancel_of none = pure false
cancel_of (some w) = do workflow ← find_workflow crash w; pure workflow.cancel_requested

-- Whether the workflow of the job, if both are there, was asked to cancel.
workflow_cancel_requested : Option Job → Act Bool
unfolding cancel_of
workflow_cancel_requested none = pure false
workflow_cancel_requested (some job) = cancel_of job.command.workflow_id

unfoldable pub heartbeat : Reading → ℕ → ℕ → String → Option ℕ → Act HeartbeatResult
unfolding find_attempt workflow_cancel_requested
heartbeat now id attempt worker lease = do
  ensure_open
  job ← gets (λ c. get id c.jobs)
  requested ← workflow_cancel_requested job
  held ← gets (find_attempt id attempt worker)
  at ← read_clock now
  pure (record {
    ok = is_some held;
    cancel_requested = requested;
    lease_expires_at = at + seconds (or_default lease 60);
  })

-- The job of an attempt that may settle, or the result that the settlement has already.
pub data Verdict : Type 0 where
  owned : Job → Verdict
  replayed : SettleResult → Verdict

abbrev verdict : SettleOutcome → Option JobStatus → Option ℕ → Verdict
verdict outcome status at =
    replayed (record { result = outcome; job_status = status; scheduled_at = at })

abbrev settled_verdict : SettleCommand → Job → SettleCommand → Verdict
settled_verdict command job before =
    if command_beq before command
    then verdict already_settled (some job.status) job.command.scheduled_at
    else verdict settle_conflict (some job.status) job.command.scheduled_at

abbrev held_verdict : SettleCommand → Job → Option SettleCommand → Verdict
held_verdict command job (some before) = settled_verdict command job before
held_verdict command job none =
    if is_running job.status then owned job else verdict lost (some job.status) none

abbrev job_verdict : ℕ → String → SettleCommand → Option Job → Verdict
job_verdict attempt worker command none = verdict lost none none
job_verdict attempt worker command (some job) =
    if holds attempt worker job
    then held_verdict command job job.settled_command
    else verdict lost none none

-- _replay_or_lost
unfoldable pub replay_or_lost : ℕ → ℕ → String → SettleCommand → Client → Verdict
replay_or_lost id attempt worker command c = job_verdict attempt worker command (get id c.jobs)

-- The job after its end: `job.status`, `job.settled_command` and the new `scheduled_at`.
abbrev pub ended_job : SettleCommand → JobStatus → Option ℕ → Job → Job
ended_job command status none job = record job { status = status; settled_command = some command }
ended_job command status (some at) job = record job {
  status = status;
  settled_command = some command;
  command = record job.command { scheduled_at = some at };
}

abbrev pub release_key : EnqueueCommand → Client → Client
release_key command c = elim command.idempotency_key [
  | none ↦ c
  | some k ↦ record c { active_keys = delete (command.queue, k) c.active_keys }
]

abbrev settlement :
    Job → SettleCommand → Option HandlerResult → SettleOutcome → Option String → RecordedSettlement
settlement job command intent outcome cause = record {
  job_id = job.job_id;
  queue = job.command.queue;
  job_type = job.command.job_type;
  command = command;
  intent = intent;
  outcome = outcome;
  cause = cause;
}

abbrev log_settlement : RecordedSettlement → Client → Client
log_settlement s c = record c { settlements = c.settlements ++ s ∷ [] }

advance_of : Job → Option ℕ → Act Unit
advance_of job none = pure tt
advance_of job (some w) = advance_workflow w job.job_id job.status

-- The end of `_finish`, behind the assignments to the job.
after_end :
    Job
    → SettleCommand
    → JobStatus
    → Option HandlerResult
    → SettleOutcome
    → Option String
    → Act Unit
unfolding advance_of
after_end ended command status intent outcome cause = do
  when (is_terminal status) (modify (release_key ended.command))
  modify (log_settlement (settlement ended command intent outcome cause))
  when (is_terminal status) (advance_of ended ended.command.workflow_id)

-- _finish, for the job that is stored under `id`
unfoldable pub finish :
    ℕ
    → Job
    → SettleCommand
    → JobStatus
    → Option HandlerResult
    → SettleOutcome
    → Option String
    → Option ℕ
    → Act Unit
unfolding after_end
finish id job command status intent outcome cause at = do
  modify (set_job id (ended_job command status at job))
  after_end (ended_job command status at job) command status intent outcome cause

abbrev settled : SettleOutcome → JobStatus → Option ℕ → SettleResult
settled outcome status at = record { result = outcome; job_status = some status; scheduled_at = at }

by_verdict : Verdict → (Job → Act SettleResult) → Act SettleResult
by_verdict (replayed r) body = pure r
by_verdict (owned job) body = body job

-- Settles by `body` where the attempt still owns its job.
unfoldable pub settle : ℕ → ℕ → String → SettleCommand → (Job → Act SettleResult) → Act SettleResult
unfolding by_verdict replay_or_lost
settle id attempt worker command body = do
  ensure_open
  v ← gets (replay_or_lost id attempt worker command)
  by_verdict v body

-- dict(progress or {}) or None
abbrev given_progress : Option Json → Option Json
given_progress none = none
given_progress (some p) = if p == "{}" then none else some p

abbrev too_long : Option ℕ → Bool
too_long none = false
too_long (some n) = ltb 2592000 n

-- Whether one more failure leaves an attempt.
unfoldable pub will_retry : Bool → Job → Bool
will_retry retryable job =
    retryable && ltb (job.failure_count + 1) (or_default job.command.max_attempts 10)

abbrev pub count_failure : Job → Job
count_failure job = record job { failure_count = job.failure_count + 1 }

fail_with : Reading → ℕ → String → Option ℕ → Option Json → Job → Bool → Act SettleResult
fail_with now id error after progress job true = do
  at ← read_clock now
  let scheduled = at + seconds (or_default after 0)
  raise_if (too_long after) invalid_model
  finish id job fail queued (some (retry after (some error) (given_progress progress)))
      retry_scheduled none (some scheduled)
  pure (settled retry_scheduled queued (some scheduled))
fail_with now id error after progress job false = do
  raise_if (error == "") invalid_model
  finish id job fail failed (some (non_retryable error (given_progress progress))) dead none none
  pure (settled dead failed none)

-- The failure is counted before the intent is built, and stays counted where that raises.
unfoldable pub fail_attempt :
    Reading → ℕ → ℕ → String → String → Bool → Option ℕ → Option Json → Act SettleResult
unfolding fail_with will_retry settle
fail_attempt now id attempt worker error retryable after progress =
    settle id attempt worker fail λ job. do
      modify (set_job id (count_failure job))
      fail_with now id error after progress (count_failure job) (will_retry retryable job)

unfoldable pub snooze :
    Reading → ℕ → ℕ → String → ℕ → Option String → Option Json → Act SettleResult
unfolding settle
snooze now id attempt worker delay reason progress =
    settle id attempt worker SettleCommand.snooze λ job. do
      at ← read_clock now
      raise_if (ltb 2592000 delay) invalid_model
      finish id job SettleCommand.snooze queued
          (some (HandlerResult.snooze delay reason (given_progress progress))) SettleOutcome.ok none
          (some (at + seconds delay))
      pure (settled SettleOutcome.ok queued (some (at + seconds delay)))

-- `delay_seconds` of release, which may be negative.
pub data Delay : Type 0 where
  later earlier : (seconds : ℕ) → Delay

-- The instant that the delay gives, where it is not before the first one.
abbrev pub delayed : ℕ → Delay → ℕ
delayed at (later n) = at + seconds n
delayed at (earlier n) = at - seconds n

unfoldable pub release : Reading → ℕ → ℕ → String → String → Delay → Act SettleResult
unfolding settle
release now id attempt worker cause delay = settle id attempt worker SettleCommand.release λ job. do
  at ← read_clock now
  finish id job SettleCommand.release queued none SettleOutcome.ok (some cause)
      (some (delayed at delay))
  pure (settled SettleOutcome.ok queued (some (delayed at delay)))

unfoldable pub cancel_running : ℕ → ℕ → String → String → Act SettleResult
unfolding settle
cancel_running id attempt worker reason =
    settle id attempt worker SettleCommand.cancel_running λ job. do
      raise_if (reason == "") invalid_model
      finish id job SettleCommand.cancel_running cancelled (some (HandlerResult.cancel reason))
          SettleOutcome.ok none none
      pure (settled SettleOutcome.ok cancelled none)
