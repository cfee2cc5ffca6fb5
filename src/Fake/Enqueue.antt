-- ===== src/Fake/Enqueue.antt =====
-- `enqueue`, `enqueue_many`, `_enqueue_workflow_member` and `_record_enqueue` of testing.py.
pub mod Lifecycle
pub mod Idempotence
use outlabs_taskq.Prelude.{
  ℕ, ◌+◌, Bool, false, not, ◌||◌, String, Option, none, some, List, [], ◌∷◌, ◌++◌, ◌==◌,
  if◌then◌else◌, contains, remove_first, leb, any, nat_eq, string_eq, pair_eq, option_eq,
}
use outlabs_taskq.Dict.{get, put, delete}
use outlabs_taskq.Effects.{
  not_found, crash, validation, conflict, ok, pure, throw, gets, require, modify, raise_if, ◌>>=◌,
  ◌>>◌,
}
use outlabs_taskq.Protocol.{
  JobStatus, blocked, queued, EnqueueCommand, EnqueueManyItem, EnqueueStatus, created, existed,
  EnqueueResult, is_failed, is_cancelled, is_succeeded, text_or,
}
use outlabs_taskq.Fake.State.{
  Job, RecordedEnqueue, Workflow, Client, Act, ensure_open, add_queue, find_job, find_workflow,
  set_workflow,
}
use outlabs_taskq.Fake.Identity.{same_identity}

abbrev enqueue_record : Job → EnqueueCommand → EnqueueStatus → Option ℕ → RecordedEnqueue
enqueue_record job command status parent = record {
  job_id = job.job_id;
  queue = command.queue;
  job_type = command.job_type;
  payload = command.payload;
  headers = text_or command.headers "{}";
  idempotency_key = command.idempotency_key;
  status = status;
  parent_job_id = parent;
}

-- self._enqueues.append(...)
abbrev pub log_enqueue : Job → EnqueueCommand → EnqueueStatus → Option ℕ → Client → Client
log_enqueue job command status parent c = record c {
  enqueues = c.enqueues ++ enqueue_record job command status parent ∷ [];
}

unfoldable pub record_enqueue : Job → EnqueueCommand → EnqueueStatus → Act EnqueueResult
record_enqueue job command status = do
  modify (log_enqueue job command status job.parent_job_id)
  pure (record {
    status = status;
    job_id = job.job_id;
    queue = command.queue;
    job_type = command.job_type;
    idempotency_key = command.idempotency_key;
    scheduled_at = job.command.scheduled_at;
  })

-- _FakeJob(job_id=uuid4(), ...)
abbrev pub fresh_job : EnqueueCommand → JobStatus → Option ℕ → Option String → Client → Job
fresh_job command status parent policy c = record {
  job_id = c.world.uuid4 c.drawn;
  command = command;
  status = status;
  attempt_id = none;
  worker_id = none;
  attempt_number = 0;
  failure_count = 0;
  settled_command = none;
  parent_job_id = parent;
  continuation_policy_hash = policy;
}

-- A new job is put into `_jobs` and `_order`.
unfoldable pub store_job : EnqueueCommand → JobStatus → Option ℕ → Option String → Act Job
store_job command status parent policy c =
    let job = fresh_job command status parent policy c in
    (
      ok job,
      record c {
        jobs = put job.job_id job c.jobs;
        order = c.order ++ job.job_id ∷ [];
        drawn = c.drawn + 1;
      },
    )

-- self._active_keys.get(key), with the test for a command without a key
abbrev pub active_job : EnqueueCommand → Client → Option ℕ
active_job command c = elim command.idempotency_key [
  | none ↦ none
  | some k ↦ get (command.queue, k) c.active_keys
]

abbrev pub set_active : EnqueueCommand → ℕ → Client → Client
set_active command id c = elim command.idempotency_key [
  | none ↦ c
  | some k ↦ record c { active_keys = put (command.queue, k) id c.active_keys }
]

unfoldable pub enqueue_new : EnqueueCommand → Act EnqueueResult
enqueue_new command = do
  job ← store_job command queued none none
  modify (add_queue command.queue)
  modify (set_active command job.job_id)
  record_enqueue job command created

unfoldable pub enqueue_existing : EnqueueCommand → ℕ → Act EnqueueResult
enqueue_existing command id = do job ← find_job crash id; record_enqueue job command existed

enqueue_plain_at : EnqueueCommand → Option ℕ → Act EnqueueResult
enqueue_plain_at command none = enqueue_new command
enqueue_plain_at command (some id) = enqueue_existing command id

-- `enqueue` without a workflow
unfoldable pub enqueue_plain : EnqueueCommand → Act EnqueueResult
unfolding enqueue_plain_at
enqueue_plain command c = enqueue_plain_at command (active_job command c) c

-- One parent of a new member: a member of the same workflow that can still succeed.
unfoldable pub live_parent : ℕ → ℕ → Act Job
live_parent w id = do
  parent ← find_job not_found id
  raise_if (not (parent.command.workflow_id == some w)) not_found
  raise_if (is_failed parent.status || is_cancelled parent.status)
      (conflict "dependency_terminal" none)
  pure parent

-- The loop over `depends_on`.
unfoldable pub live_parents : ℕ → List ℕ → Act (List Job)
live_parents w [] = pure []
live_parents w (id ∷ ids) = do
  parent ← live_parent w id
  rest ← live_parents w ids
  pure (parent ∷ rest)

abbrev dependencies : EnqueueCommand → List ℕ
dependencies command = elim command.depends_on [ none ↦ [] | some ids ↦ ids ]

abbrev pub at_limit : Option ℕ → ℕ → Bool
at_limit none total = false
at_limit (some limit) total = leb limit total

abbrev pub admit_step : String → ℕ → Workflow → Workflow
admit_step step_key id w = record w {
  steps = put step_key id w.steps;
  admitted_total = w.admitted_total + 1;
}

-- del self._jobs[id]; self._order.remove(id); del workflow.steps[step_key]. The count of admitted
-- members stays as it is.
abbrev roll_back : ℕ → String → Workflow → ℕ → Client → Client
roll_back w step_key workflow id c = record c {
  jobs = delete id c.jobs;
  order = remove_first id c.order;
  workflows = put w (record workflow { steps = delete step_key workflow.steps }) c.workflows;
}

-- The claim of the idempotency key, with the roll back of a collision.
unfoldable pub claim_key : ℕ → String → Workflow → EnqueueCommand → Job → Option ℕ → Act Unit
claim_key w step_key workflow command job none = modify (set_active command job.job_id)
claim_key w step_key workflow command job (some other) =
    if other == job.job_id then modify (set_active command job.job_id) else (do
      modify (roll_back w step_key workflow job.job_id)
      throw (conflict "workflow_step_mismatch" none))

-- The new job joins its workflow, which counts it.
unfoldable pub enter_member : ℕ → String → Workflow → EnqueueCommand → Job → Act EnqueueResult
enter_member w step_key admitted command job = do
  modify (set_workflow w admitted)
  modify (add_queue command.queue)
  collision ← gets (active_job command)
  claim_key w step_key admitted command job collision
  record_enqueue job command created

unfoldable pub commit_member :
    ℕ → String → Workflow → EnqueueCommand → JobStatus → Act EnqueueResult
commit_member w step_key workflow command status = do
  job ← store_job command status none workflow.continuation_policy_hash
  enter_member w step_key (admit_step step_key job.job_id workflow) command job

unfoldable pub admit_member : ℕ → String → Workflow → EnqueueCommand → Act EnqueueResult
admit_member w step_key workflow command = do
  raise_if (workflow.sealed || workflow.cancel_requested) (conflict "workflow_sealed" none)
  raise_if (at_limit workflow.member_limit workflow.admitted_total)
      (conflict "workflow_member_limit_exceeded" none)
  parents ← live_parents w (dependencies command)
  commit_member w step_key workflow command
      (if any (λ parent. not (is_succeeded parent.status)) parents then blocked else queued)

unfoldable pub repeat_member : EnqueueCommand → ℕ → Act EnqueueResult
repeat_member command id = do
  existing ← find_job crash id
  raise_if (not (same_identity existing.command command)) (conflict "workflow_step_mismatch" none)
  record_enqueue existing command existed

member_at : ℕ → String → Workflow → EnqueueCommand → Option ℕ → Act EnqueueResult
member_at w step_key workflow command none = admit_member w step_key workflow command
member_at w step_key workflow command (some id) = repeat_member command id

unfoldable pub enqueue_workflow_member : ℕ → EnqueueCommand → Act EnqueueResult
unfolding member_at
enqueue_workflow_member w command = do
  step_key ← require crash command.step_key
  workflow ← find_workflow not_found w
  raise_if (not (contains command.queue workflow.declared_queues))
      (validation "workflow_queue_not_declared")
  member_at w step_key workflow command (get step_key workflow.steps)

enqueue_at : EnqueueCommand → Option ℕ → Act EnqueueResult
enqueue_at command (some w) = enqueue_workflow_member w command
enqueue_at command none = enqueue_plain command

unfoldable pub enqueue : EnqueueCommand → Act EnqueueResult
unfolding enqueue_at
enqueue command = do ensure_open; enqueue_at command command.workflow_id

-- EnqueueCommand(queue=queue, **item.model_dump())
abbrev item_command : String → EnqueueManyItem → EnqueueCommand
item_command queue item = record {
  queue = queue;
  job_type = item.job_type;
  payload = item.payload;
  priority = item.priority;
  scheduled_at = item.scheduled_at;
  idempotency_key = item.idempotency_key;
  concurrency_key = item.concurrency_key;
  affinity_key = item.affinity_key;
  max_attempts = item.max_attempts;
  lease_seconds = item.lease_seconds;
  backoff_mode = item.backoff_mode;
  backoff_base = item.backoff_base;
  backoff_cap = item.backoff_cap;
  workflow_id = item.workflow_id;
  step_key = item.step_key;
  depends_on = none;
  headers = item.headers;
  ttl_seconds = item.ttl_seconds;
  flow_key = item.flow_key;
}

-- The items in turn; an error ends the call and keeps what was enqueued before it.
unfoldable pub enqueue_many : String → List EnqueueManyItem → Act (List EnqueueResult)
enqueue_many queue [] = pure []
enqueue_many queue (item ∷ items) = do
  result ← enqueue (item_command queue item)
  results ← enqueue_many queue items
  pure (result ∷ results)
