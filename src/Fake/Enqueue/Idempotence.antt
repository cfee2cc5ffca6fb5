-- ===== src/Fake/Enqueue/Idempotence.antt =====
-- `enqueue` of testing.py with an idempotency key.
use outlabs_taskq.Prelude.{
  ℕ, ◌≡◌, false, String, Option, none, some, arith, nat_eq, string_eq, pair_eq,
}
use outlabs_taskq.Dict.{get, get-put_self}
use outlabs_taskq.Effects.{ok}
use outlabs_taskq.Protocol.{queued, EnqueueCommand, EnqueueStatus, created, existed, EnqueueResult}
use outlabs_taskq.Fake.State.{Client}
use outlabs_taskq.Fake.Enqueue.{
  enqueue, enqueue_plain, enqueue_new, enqueue_existing, store_job, record_enqueue, fresh_job,
}

pub answer : EnqueueStatus → ℕ → EnqueueCommand → Option ℕ → EnqueueResult
answer status id command at = record {
  status = status;
  job_id = id;
  queue = command.queue;
  job_type = command.job_type;
  idempotency_key = command.idempotency_key;
  scheduled_at = at;
}

-- The client is open, and the command has a key that no active job holds, and no workflow. The
-- first call creates a job. A second call with any command of the same queue and key, and no
-- workflow, answers with the id of that job and the status "existed", and adds no job.
pub enqueue-enqueue :
    (c : Client) (command again : EnqueueCommand) (k : String)
    → c.closed ≡ false
    → command.workflow_id ≡ none
    → command.idempotency_key ≡ some k
    → get (command.queue, k) c.active_keys ≡ none
    → again.workflow_id ≡ none
    → again.idempotency_key ≡ some k
    → again.queue ≡ command.queue
    → let id = c.world.uuid4 c.drawn in
      let (first, after) = enqueue command c in
      let (second, later) = enqueue again after in
      (first ≡ ok (answer created id command command.scheduled_at))
      × (second ≡ ok (answer existed id again command.scheduled_at))
      × (later.jobs ≡ after.jobs)
unfolding enqueue enqueue_plain enqueue_new enqueue_existing store_job record_enqueue answer
enqueue-enqueue c command again k closed w e free w' e' q =
    let id = c.world.uuid4 c.drawn in
    let job = fresh_job command queued none none c in
    let active = get-put_self (command.queue, k) id c.active_keys in
    let stored = get-put_self id job c.jobs in ground (arith, active, stored)
