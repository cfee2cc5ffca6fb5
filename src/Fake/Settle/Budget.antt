-- ===== src/Fake/Settle/Budget.antt =====
-- The retry budget of `fail` in testing.py.
use outlabs_taskq.Prelude.{ℕ, ◌+◌, Bool, true, false, none, some, nat_eq, string_eq, if◌then◌else◌}
use outlabs_taskq.Protocol.{
  EnqueueCommand, queued, failed, SettleCommand, SettleResult, retry_scheduled, dead,
}
use outlabs_taskq.Fake.State.{Job}
use outlabs_taskq.Fake.Settle.{settled}

-- The command of a job that is due again at an instant: nothing else of it changes.
due_again : ℕ → EnqueueCommand → EnqueueCommand
due_again at c = record c { scheduled_at = some at }

-- The job after a failure, field by field. `fail` keeps the attempt and the worker, and the number of
-- attempts counts the claims.
pub ended : Bool → ℕ → Job → Job
unfolding due_again
ended again at job = record {
  job_id = job.job_id;
  command = if again then due_again at job.command else job.command;
  status = if again then queued else failed;
  attempt_id = job.attempt_id;
  worker_id = job.worker_id;
  attempt_number = job.attempt_number;
  failure_count = job.failure_count + 1;
  settled_command = some SettleCommand.fail;
  parent_job_id = job.parent_job_id;
  continuation_policy_hash = job.continuation_policy_hash;
}

-- The result that is reported.
pub answer : Bool → ℕ → SettleResult
answer true at = settled retry_scheduled queued (some at)
answer false at = settled dead failed none
