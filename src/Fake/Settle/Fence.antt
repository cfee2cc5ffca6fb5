-- ===== src/Fake/Settle/Fence.antt =====
-- What the settlement methods of testing.py do for an attempt that does not own its job, or that has
-- settled it already.
use outlabs_taskq.Prelude.{
  ℕ, ◌≡◌, Bool, false, String, Option, none, some, List, if◌then◌else◌, arith, nat_eq, string_eq,
}
use outlabs_taskq.Dict.{get}
use outlabs_taskq.Effects.{ok}
use outlabs_taskq.Protocol.{
  Json, is_running, Followup, SettleCommand, SettleResult, lost, already_settled, settle_conflict,
  command_beq,
}
use outlabs_taskq.Fake.State.{Job, Client, Act, Reading}
use outlabs_taskq.Fake.Settle.{
  holds, settle, replay_or_lost, fail_attempt, snooze, Delay, release, cancel_running,
}
use outlabs_taskq.Fake.Complete.{complete}

-- The arguments of a settlement, behind the job, the attempt and the worker.
pub data Settlement : Type 0 where
  completing : Json → List Followup → Option String → Settlement
  failing : Reading → String → Bool → Option ℕ → Option Json → Settlement
  snoozing : Reading → ℕ → Option String → Option Json → Settlement
  releasing : Reading → String → Delay → Settlement
  cancelling : String → Settlement

-- The call of the method.
unfoldable pub call : Settlement → ℕ → ℕ → String → Act SettleResult
call (Settlement.completing result followups policy) id attempt worker =
    complete id attempt worker result followups policy
call (Settlement.failing now error retryable after progress) id attempt worker =
    fail_attempt now id attempt worker error retryable after progress
call (Settlement.snoozing now delay reason progress) id attempt worker =
    snooze now id attempt worker delay reason progress
call (Settlement.releasing now cause delay) id attempt worker =
    release now id attempt worker cause delay
call (Settlement.cancelling reason) id attempt worker = cancel_running id attempt worker reason

-- The name under which the method stores the settlement.
abbrev pub command_of : Settlement → SettleCommand
command_of (Settlement.completing result followups policy) = SettleCommand.complete
command_of (Settlement.failing now error retryable after progress) = SettleCommand.fail
command_of (Settlement.snoozing now delay reason progress) = SettleCommand.snooze
command_of (Settlement.releasing now cause delay) = SettleCommand.release
command_of (Settlement.cancelling reason) = SettleCommand.cancel_running

-- The result of a settlement that changes nothing.
unfoldable pub refusal : ℕ → String → SettleCommand → Job → Option SettleResult
refusal attempt worker command job =
    if holds attempt worker job
    then refused_held job.settled_command
    else some (record { result = lost; job_status = none; scheduled_at = none })
  where
    refused_held : Option SettleCommand → Option SettleResult
    refused_held (some before) = some (record {
      result = if command_beq before command then already_settled else settle_conflict;
      job_status = some job.status;
      scheduled_at = job.command.scheduled_at;
    })
    refused_held none =
        if is_running job.status
        then none
        else some (record { result = lost; job_status = some job.status; scheduled_at = none })

settle-refused :
    (command : SettleCommand) (body : Job → Act SettleResult) (id attempt : ℕ) (worker : String)
    (c : Client) (job : Job) (r : SettleResult)
    → c.closed ≡ false
    → get id c.jobs ≡ some job
    → refusal attempt worker command job ≡ some r
    → settle id attempt worker command body c ≡ (ok r, c)
unfolding settle replay_or_lost refusal
settle-refused command body id attempt worker c job r shut e h = ground arith

-- The client is open and the job is there. If the attempt and the worker do not hold the job, each
-- of the five settlements answers "lost"; if they hold it and settled it before, "already_settled"
-- for the same settlement and "settle_conflict" for another; if they hold a job that neither runs
-- nor was settled, "lost" with its status. In all these cases the state of the client stays as it
-- is: nothing is settled twice or by a stale worker.
pub call-refused :
    (s : Settlement) (id attempt : ℕ) (worker : String) (c : Client) (job : Job) (r : SettleResult)
    → c.closed ≡ false
    → get id c.jobs ≡ some job
    → refusal attempt worker (command_of s) job ≡ some r
    → call s id attempt worker c ≡ (ok r, c)
unfolding call complete fail_attempt snooze release cancel_running
call-refused (Settlement.completing result followups policy) id attempt worker =
    settle-refused _ _ id attempt worker
call-refused (Settlement.failing now error retryable after progress) id attempt worker =
    settle-refused _ _ id attempt worker
call-refused (Settlement.snoozing now delay reason progress) id attempt worker =
    settle-refused _ _ id attempt worker
call-refused (Settlement.releasing now cause delay) id attempt worker =
    settle-refused _ _ id attempt worker
call-refused (Settlement.cancelling reason) id attempt worker = settle-refused _ _ id attempt worker
