-- ===== src/Worker/Settlement.antt =====
-- `_settle_with_retry` of worker.py, its reports, and the bounds of its delays.
pub mod Retry
use outlabs_taskq.Prelude.{
  ℕ, ◌+◌, ◌-◌, ◌*◌, ◌/◌, ◌^◌, min, max, Bool, true, false, not, ◌&&◌, ◌||◌, ◌==◌, String, Option,
  none, some, List, [], ◌∷◌, ltb, leb, if◌then◌else◌, nat_eq, string_eq,
}
use outlabs_taskq.Protocol.{SettleCommand, complete, SettleOutcome, seconds}
use outlabs_taskq.Execution.{CancellationReason, lease_lost}

pub data RunState : Type 0 where
  accepted running cancel_pending settling settled ownership_lost abandoned_sync runtime_failed :
      RunState

pub data RunOutcome : Type 0 where
  settled no_handler ownership_lost settle_conflict settlement_unknown followup_rejected
        runtime_error unsupported_continuation_policy :
      RunOutcome

pub record Report : Type 0 where
  pub job_id : ℕ
  pub state : RunState
  pub outcome : RunOutcome
  pub settlement_command : Option SettleCommand
  pub settlement_outcome : Option SettleOutcome
  pub settlement_error_code : Option String
  pub cancellation_reason : Option CancellationReason
  pub requires_process_exit : Bool
  pub fatal : Bool

abbrev report : ℕ → RunState → RunOutcome → Report
report id state outcome = record {
  job_id = id;
  state = state;
  outcome = outcome;
  settlement_command = none;
  settlement_outcome = none;
  settlement_error_code = none;
  cancellation_reason = none;
  requires_process_exit = false;
  fatal = false;
}

abbrev is_lost : SettleOutcome → Bool
is_lost SettleOutcome.lost = true
is_lost _ = false

abbrev is_conflict : SettleOutcome → Bool
is_conflict SettleOutcome.settle_conflict = true
is_conflict _ = false

-- _report_from_settle
unfoldable pub report_from_settle : ℕ → SettleCommand → SettleOutcome → Bool → Report
report_from_settle id command result unhandled =
    if is_lost result
    then record (report id RunState.ownership_lost RunOutcome.ownership_lost) {
      settlement_command = some command;
      settlement_outcome = some result;
    }
    else if is_conflict result
    then record (report id runtime_failed RunOutcome.settle_conflict) {
      settlement_command = some command;
      settlement_outcome = some result;
      fatal = true;
    }
    else record (report id RunState.settled
        (if unhandled then no_handler else RunOutcome.settled)) {
          settlement_command = some command;
          settlement_outcome = some result;
        }

-- _runtime_failure
unfoldable pub runtime_failure : ℕ → SettleCommand → Report
runtime_failure id command = record (report id runtime_failed runtime_error) {
  settlement_command = some command;
  fatal = true;
}

-- What a settlement reads of `_RunControl`.
pub record Control : Type 0 where
  pub lease_seconds : ℕ
  pub reason : Option CancellationReason
  pub runtime_failed : Bool
  pub abandoned_sync : Bool

abbrev or_lease_lost : Option CancellationReason → CancellationReason
or_lease_lost none = lease_lost
or_lease_lost (some r) = r

-- _ownership_lost_report
unfoldable pub ownership_lost_report : ℕ → Control → Report
ownership_lost_report id c =
    if c.runtime_failed
    then record (report id runtime_failed runtime_error) {
      cancellation_reason = some (or_lease_lost c.reason);
      requires_process_exit = c.abandoned_sync;
      fatal = true;
    }
    else record (report id (if c.abandoned_sync then abandoned_sync else RunState.ownership_lost)
        RunOutcome.ownership_lost) {
          cancellation_reason = some (or_lease_lost c.reason);
          requires_process_exit = c.abandoned_sync;
        }

-- The durations below are microseconds, rounded down.
-- _heartbeat_interval
unfoldable pub heartbeat_interval : ℕ → ℕ
heartbeat_interval lease = min (seconds lease / 3) (seconds 30)

-- _lease_budget
unfoldable pub lease_budget : ℕ → ℕ
lease_budget lease = seconds lease - min (seconds 60) (seconds lease / 4)

-- How one call of the operation ends, by the `except` clauses in their order. `unavailable` is a
-- retryable error that is neither backpressure nor a malformed response, or a lost connection.
pub data Answer : Type 0 where
  returned : SettleOutcome → Answer
  rejected : Answer
  conflicted : (reason : String) → Answer
  final_error other_error : Answer
  malformed unavailable backpressure : (code : String) (retry_after : ℕ) → Answer

pub record Options : Type 0 where
  pub max_attempts : ℕ
  pub backoff_base : ℕ
  pub backoff_cap : ℕ
  pub backpressure_max_elapsed : ℕ

-- What happens around one attempt: whether ownership is lost before it, its answer, the time since
-- the start, whether the worker is stopping, whether ownership is lost behind it or in the delay,
-- and the drawn delay under its upper bound.
pub record Round : Type 0 where
  pub lost_before : Bool
  pub answer : Answer
  pub elapsed : ℕ
  pub stopping : Bool
  pub lost_after : Bool
  pub draw : ℕ → ℕ
  pub lost_in_delay : Bool

-- The error is raised to the caller, the report is returned, or the loop goes on.
pub data Ending : Type 0 where
  raises : Ending
  reports : Report → Ending

abbrev is_permanent : SettleCommand → String → Bool
is_permanent complete reason =
    reason == "continuation_policy_mismatch" || reason == "workflow_member_limit_exceeded"
is_permanent _ reason = false

abbrev is_lost_for : Bool → Option Control → Bool
is_lost_for flag none = false
is_lost_for flag (some c) = flag

abbrev lost_report : ℕ → Option Control → Report
lost_report id none = report id RunState.ownership_lost RunOutcome.ownership_lost
lost_report id (some c) = ownership_lost_report id c

unfoldable pub unknown : ℕ → SettleCommand → String → Report
unknown id command code = record (report id runtime_failed settlement_unknown) {
  settlement_command = some command;
  settlement_error_code = some code;
  fatal = true;
}

-- min(backoff_base * 2 ** min(attempt - 1, 30), ...)
abbrev upper : Options → Option Control → ℕ → Bool → ℕ
upper o none attempt failing = min (o.backoff_base * 2 ^ min (attempt - 1) 30) o.backoff_cap
upper o (some c) attempt failing =
    min (o.backoff_base * 2 ^ min (attempt - 1) 30)
      (if failing then heartbeat_interval c.lease_seconds else o.backoff_cap)

abbrev backpressure_delay : Options → Option Control → ℕ → Bool → ℕ → Round → ℕ
backpressure_delay o c attempt failing after r =
    let top = upper o c attempt failing in
    let delay = max after (r.draw top) in
    if leb o.max_attempts attempt then max delay (min o.backoff_base top) else delay

-- COMMAND_SPECS[command].outcomes
abbrev is_outcome : SettleCommand → SettleOutcome → Bool
is_outcome SettleCommand.fail result = true
is_outcome command SettleOutcome.retry_scheduled = false
is_outcome command SettleOutcome.dead = false
is_outcome command result = true

-- An attempt ends the loop, or failed with a code, a delay that was asked for, and whether that was
-- backpressure or an outage.
pub data Next : Type 0 where
  ends : Ending → Next
  fails : (code : String) (retry_after : ℕ) (is_backpressure is_outage : Bool) → Next

unfoldable pub answer_next : ℕ → SettleCommand → Answer → Next
answer_next id command (returned result) = ends (
    reports (
      if is_outcome command result
      then report_from_settle id command result false
      else runtime_failure id command))
answer_next id command rejected = ends raises
answer_next id command (conflicted reason) =
    ends (if is_permanent command reason then raises else reports (runtime_failure id command))
answer_next id command final_error = ends (reports (runtime_failure id command))
answer_next id command other_error = ends (reports (runtime_failure id command))
answer_next id command (malformed code after) = fails code after false false
answer_next id command (unavailable code after) = fails code after false true
answer_next id command (backpressure code after) = fails code after true false

-- Past the attempt cap an owned job goes on in an outage, as long as its lease would last.
abbrev is_outlasting : Option Control → Round → Bool
is_outlasting none r = false
is_outlasting (some c) r = not r.stopping

abbrev in_budget : Option Control → Round → Bool
in_budget none r = false
in_budget (some c) r = ltb r.elapsed (lease_budget c.lease_seconds)

module _ (o : Options) (id : ℕ) (command : SettleCommand) (c : Option Control) where
  abbrev give_up : Round → String → Option Ending
  give_up r code =
      some
        (reports (if is_lost_for r.lost_after c then lost_report id c else unknown id command code))

  abbrev wait : Round → Option Ending → Option Ending
  wait r rest = if is_lost_for r.lost_in_delay c then some (reports (lost_report id c)) else rest

  -- What follows a failed attempt; `rest` goes on, with the flag `settle_failing`.
  unfoldable pub after_failure :
      ℕ → Bool → Round → String → ℕ → Bool → Bool → (Bool → Option Ending) → Option Ending
  after_failure attempt failing r code after true outage rest =
      if not (ltb r.elapsed o.backpressure_max_elapsed)
      then give_up r code
      else if ltb o.backpressure_max_elapsed
          (r.elapsed + backpressure_delay o c attempt failing after r)
      then some (reports (unknown id command code))
      else wait r (rest failing)
  after_failure attempt failing r code after false outage rest =
      if ltb attempt o.max_attempts
      then wait r (rest failing)
      else if outage && is_outlasting c r && in_budget c r
      then wait r (rest true)
      else give_up r code

  abbrev after_answer : ℕ → Bool → Round → Next → (Bool → Option Ending) → Option Ending
  after_answer attempt failing r (ends e) rest = some e
  after_answer attempt failing r (fails code after full outage) rest =
      after_failure attempt failing r code after full outage rest

  -- The rounds of the loop, `n` attempts having been made; none where the rounds run out before the
  -- loop ends.
  unfoldable pub settle_rounds : ℕ → Bool → List Round → Option Ending
  settle_rounds n failing [] = none
  settle_rounds n failing (r ∷ rs) =
      let rest = λ (f : Bool). settle_rounds (n + 1) f rs in
      if is_lost_for r.lost_before c
      then some (reports (lost_report id c))
      else after_answer (n + 1) failing r (answer_next id command r.answer) rest

  -- _settle_with_retry
  unfoldable pub settle_with_retry : List Round → Option Ending
  unfolding settle_rounds
  settle_with_retry rs = settle_rounds 0 false rs
