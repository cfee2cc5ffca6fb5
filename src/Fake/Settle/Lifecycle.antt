-- ===== src/Fake/Settle/Lifecycle.antt =====
-- The settlement methods only move jobs on.
use outlabs_taskq.Prelude.{
  ℕ, ◌≡◌, refl, sym, subst, Bool, true, false, String, Option, none, some, arith, nat_eq, string_eq,
  option_eq, ltb, ◌==◌,
}
use outlabs_taskq.Dict.{get, get-put_self}
use outlabs_taskq.Effects.{
  Error, config, invalid_model, ok, modify, pure, raise_if, ◌>>=◌, ◌>>◌, Result, raised, and_then,
}
use outlabs_taskq.Effects.Keeps.{
  IsPreorder, Same, Same-IsPreorder, Keeps, Keeps-require, Keeps-raise_if, after_read,
}
use outlabs_taskq.Protocol.{
  Json, JobStatus, EnqueueCommand, queued, running, failed, cancelled, HandlerResult, SettleCommand,
  SettleOutcome, SettleResult, fail, dead, is_blocked,
}
use outlabs_taskq.Fake.State.{
  Job, RecordedSettlement, Client, Act, Reading, set_job, ensure_open, read_clock,
}
use outlabs_taskq.Fake.Workflow.Lifecycle.{advance_workflow-Keeps}
use outlabs_taskq.Fake.Settle.{
  Verdict, owned, replayed, replay_or_lost, by_verdict, settle, finish, ended_job, advance_of,
  fail_with, fail_attempt, count_failure, will_retry, snooze, Delay, release, cancel_running,
  after_end, release_key, log_settlement, too_long, cancel_of, workflow_cancel_requested, heartbeat,
}
use outlabs_taskq.Fake.Lifecycle.{Follows, Follows-refl, Follows-trans, Mutates, Mutates-IsPreorder}
use outlabs_taskq.Fake.Lifecycle.Mutation.{
  same_jobs, set_job-Mutates, mutation_rules, ensure_open-reads,
}

-- What an owned verdict says of the job.
pub owned_job :
    (id attempt : ℕ) (worker : String) (command : SettleCommand) (c : Client) (job : Job)
    → replay_or_lost id attempt worker command c ≡ owned job
    → (get id c.jobs ≡ some job) × (job.status ≡ running)
unfolding replay_or_lost
owned_job id attempt worker command c job h = ground arith

ended_job-Follows :
    (command : SettleCommand) (s : JobStatus) (at : Option ℕ) (j : Job)
    → j.status ≡ running
    → is_blocked s ≡ false
    → Follows j (ended_job command s at j)
ended_job-Follows command s none j h b = record {
  job_id = refl;
  queue = refl;
  job_type = refl;
  idempotency_key = refl;
  workflow_id = refl;
  parent_job_id = refl;
  status = ground arith;
  attempts = omega arith;
  failures = omega arith;
}
ended_job-Follows command s (some at) j h b = record {
  job_id = refl;
  queue = refl;
  job_type = refl;
  idempotency_key = refl;
  workflow_id = refl;
  parent_job_id = refl;
  status = ground arith;
  attempts = omega arith;
  failures = omega arith;
}

advance_of-Keeps : (j : Job) (w : Option ℕ) → Keeps Mutates (advance_of j w)
unfolding advance_of
advance_of-Keeps j none = search mutation_rules
advance_of-Keeps j (some w) = search (mutation_rules, advance_workflow-Keeps)

release_key-jobs : (command : EnqueueCommand) → Keeps Mutates (modify (release_key command))
release_key-jobs command = record { at = λ c. ground (arith, same_jobs c (release_key command c)) }

log_settlement-jobs : (s : RecordedSettlement) → Keeps Mutates (modify (log_settlement s))
log_settlement-jobs s = record { at = λ c. same_jobs c _ refl (omega arith) refl }

after_end-Keeps :
    (j : Job) (command : SettleCommand) (s : JobStatus) (intent : Option HandlerResult)
    (outcome : SettleOutcome) (cause : Option String)
    → Keeps Mutates (after_end j command s intent outcome cause)
unfolding after_end
after_end-Keeps j command s intent outcome cause =
    search (mutation_rules, release_key-jobs, log_settlement-jobs, advance_of-Keeps) depth 9

-- `_finish` ends the running attempt of a stored job.
pub finish-Mutates :
    (c : Client) (id : ℕ) (before job : Job)
    → get id c.jobs ≡ some before
    → Follows before job
    → job.status ≡ running
    → (command : SettleCommand) (s : JobStatus) → is_blocked s ≡ false
    → (intent : Option HandlerResult) (outcome : SettleOutcome) (cause : Option String)
      (at : Option ℕ)
    → Mutates c (finish id job command s intent outcome cause at c).1
unfolding finish
finish-Mutates c id before job e f r command s b intent outcome cause at =
    let ended = ended_job command s at job in
    let moved = Follows-trans before job ended f (ended_job-Follows command s at job r b) in
    Mutates-IsPreorder.trans_at c (set_job id ended c) _ (set_job-Mutates c id before ended e moved)
      ((after_end-Keeps ended command s intent outcome cause).at (set_job id ended c))

-- A settlement keeps a relation that its body keeps on a running job.
module _ {R : Client → Client → Type 0} (pre : IsPreorder R) where
  module _ (id attempt : ℕ) (worker : String) (command : SettleCommand)
      (body : Job → Act SettleResult)
      (h : (c : Client) (job : Job)
        → get id c.jobs ≡ some job
        → job.status ≡ running
        → R c (body job c).1) where
    by_verdict-at :
        (c : Client) (v : Verdict)
        → replay_or_lost id attempt worker command c ≡ v
        → R c (by_verdict v body c).1
    unfolding by_verdict
    by_verdict-at c (replayed r) e = pre.refl_at c
    by_verdict-at c (owned job) e =
        let (there, runs) = owned_job id attempt worker command c job e in h c job there runs

    pub Keeps-settle : Keeps R (settle id attempt worker command body)
    unfolding settle
    Keeps-settle = record {
      at = λ c. after_read pre ensure_open _ c ensure_open-reads (λ _. by_verdict-at c _ refl);
    }

read_clock-reads : (now : Reading) → Keeps Same (read_clock now)
read_clock-reads now = Keeps-require Same-IsPreorder config now

raise_if-reads : (b : Bool) (e : Error) → Keeps Same (raise_if {S = Client} b e)
raise_if-reads b e = Keeps-raise_if Same-IsPreorder b e

and_then-pure :
    (r : Result Unit) (result : SettleResult) (c : Client) → (and_then r (λ _. pure result) c).1 ≡ c
and_then-pure (ok u) result c = refl
and_then-pure (raised e) result c = refl

then_pure :
    (m : Act Unit) (result : SettleResult) (c : Client)
    → Mutates c (m c).1
    → Mutates c ((m >>= λ _. pure result) c).1
then_pure m result c h = subst (Mutates c) (sym (and_then-pure (m c).0 result (m c).1)) h

-- Reads the clock, and finishes.
clock_finish-Mutates :
    (now : Reading) (b : ℕ → Bool) (finishing : ℕ → Act Unit) (result : ℕ → SettleResult)
    (c : Client)
    → ((t : ℕ) → Mutates c (finishing t c).1)
    → Mutates c
        ((do t ← read_clock now; raise_if (b t) invalid_model; finishing t; pure (result t)) c).1
clock_finish-Mutates now b finishing result c h =
    after_read Mutates-IsPreorder (read_clock now) _ c (read_clock-reads now) λ t.
      after_read Mutates-IsPreorder (raise_if (b t) invalid_model) _ c
        (raise_if-reads (b t) invalid_model) λ _. then_pure (finishing t) (result t) c (h t)

count_failure-Follows : (j : Job) → Follows j (count_failure j)
count_failure-Follows j = record {
  job_id = refl;
  queue = refl;
  job_type = refl;
  idempotency_key = refl;
  workflow_id = refl;
  parent_job_id = refl;
  status = Follows.status (Follows-refl j);
  attempts = omega arith;
  failures = omega arith;
}

fail_with-Mutates :
    (now : Reading) (id : ℕ) (error : String) (delay : Option ℕ) (progress : Option Json)
    (job : Job) (b : Bool) (c : Client)
    → get id c.jobs ≡ some job
    → job.status ≡ running
    → Mutates c (fail_with now id error delay progress job b c).1
unfolding fail_with
fail_with-Mutates now id error delay progress job true c e r =
    clock_finish-Mutates now (λ t. too_long delay) _ _ c
      λ t. finish-Mutates c id job job e (Follows-refl job) r fail queued refl _ _ _ _
fail_with-Mutates now id error delay progress job false c e r =
    after_read Mutates-IsPreorder (raise_if (error == "") invalid_model) _ c
      (raise_if-reads (error == "") invalid_model)
      λ _.
        then_pure (finish id job fail failed _ dead none none) _ c
          (finish-Mutates c id job job e (Follows-refl job) r fail failed refl _ _ _ _)

pub fail_attempt-Keeps :
    (now : Reading) (id attempt : ℕ) (worker error : String) (retryable : Bool) (delay : Option ℕ)
    (progress : Option Json)
    → Keeps Mutates (fail_attempt now id attempt worker error retryable delay progress)
unfolding fail_attempt
fail_attempt-Keeps now id attempt worker error retryable delay progress =
    Keeps-settle Mutates-IsPreorder id attempt worker fail _ λ c job e r.
      let counted = count_failure job in
      Mutates-IsPreorder.trans_at c (set_job id counted c) _
        (set_job-Mutates c id job counted e (count_failure-Follows job))
        (fail_with-Mutates now id error delay progress counted (will_retry retryable job)
          (set_job id counted c) (get-put_self id counted c.jobs) r)

pub snooze-Keeps :
    (now : Reading) (id attempt : ℕ) (worker : String) (delay : ℕ) (reason : Option String)
    (progress : Option Json)
    → Keeps Mutates (snooze now id attempt worker delay reason progress)
unfolding snooze
snooze-Keeps now id attempt worker delay reason progress =
    Keeps-settle Mutates-IsPreorder id attempt worker SettleCommand.snooze _ λ c job e r.
      clock_finish-Mutates now (λ t. ltb 2592000 delay) _ _ c
        λ t.
          finish-Mutates c id job job e (Follows-refl job) r SettleCommand.snooze queued refl _ _ _
            _

pub release-Keeps :
    (now : Reading) (id attempt : ℕ) (worker cause : String) (delay : Delay)
    → Keeps Mutates (release now id attempt worker cause delay)
unfolding release
release-Keeps now id attempt worker cause delay =
    Keeps-settle Mutates-IsPreorder id attempt worker SettleCommand.release _ λ c job e r.
      clock_finish-Mutates now (λ t. false) _ _ c
        λ t.
          finish-Mutates c id job job e (Follows-refl job) r SettleCommand.release queued refl _ _ _
            _

pub cancel_running-Keeps :
    (id attempt : ℕ) (worker reason : String)
    → Keeps Mutates (cancel_running id attempt worker reason)
unfolding cancel_running
cancel_running-Keeps id attempt worker reason =
    Keeps-settle Mutates-IsPreorder id attempt worker SettleCommand.cancel_running _ λ c job e r.
      after_read Mutates-IsPreorder (raise_if (reason == "") invalid_model) _ c
        (raise_if-reads (reason == "") invalid_model)
        λ _. then_pure (finish id job SettleCommand.cancel_running cancelled _ _ _ _) _ c (
          finish-Mutates c id job job e (Follows-refl job) r SettleCommand.cancel_running cancelled
            refl _ _ _ _)

cancel_of-Keeps : (w : Option ℕ) → Keeps Mutates (cancel_of w)
unfolding cancel_of
cancel_of-Keeps none = search mutation_rules
cancel_of-Keeps (some w) = search mutation_rules

workflow_cancel_requested-Keeps : (o : Option Job) → Keeps Mutates (workflow_cancel_requested o)
unfolding workflow_cancel_requested
workflow_cancel_requested-Keeps none = search mutation_rules
workflow_cancel_requested-Keeps (some job) = cancel_of-Keeps job.command.workflow_id

pub heartbeat-Keeps :
    (now : Reading) (id attempt : ℕ) (worker : String) (lease : Option ℕ)
    → Keeps Mutates (heartbeat now id attempt worker lease)
unfolding heartbeat
heartbeat-Keeps now id attempt worker lease =
    search (mutation_rules, workflow_cancel_requested-Keeps) depth 12
