-- ===== src/Fake/Complete.antt =====
-- `complete` of testing.py, with its followups.
pub mod Lifecycle
use outlabs_taskq.Prelude.{
  ℕ, zero, suc, ◌+◌, Bool, true, false, not, ◌&&◌, ◌||◌, String, Option, none, some, List, [], ◌∷◌,
  ◌==◌, if◌then◌else◌, ltb, contains, length, nat_eq, string_eq, pair_eq, option_eq,
}
use Prim.Native.String.{◌++◌ as join}
use outlabs_taskq.Dict.{get}
use outlabs_taskq.Effects.{
  Error, not_found, internal, config, crash, invalid_model, validation, conflict, ok, raised, pure,
  throw, gets, require, modify, raise_if, ◌>>=◌, ◌>>◌, for_each,
}
use outlabs_taskq.Protocol.{
  Json, queued, succeeded, EnqueueCommand, created, existed, Followup, HandlerResult, SettleCommand,
  SettleOutcome, SettleResult, text_or,
}
use outlabs_taskq.Fake.State.{World, Job, Workflow, Act, find_job, find_workflow, set_workflow}
use outlabs_taskq.Fake.Identity.{same_command}
use outlabs_taskq.Fake.Enqueue.{store_job, set_active, admit_step, log_enqueue}
use outlabs_taskq.Fake.Settle.{settle, finish}

-- f"chain:{parent}:{step}", continuations.py
abbrev pub continuation_key : World → ℕ → String → String
continuation_key world parent step = join "chain:" (join (world.uuid_text parent) (join ":" step))

-- f"c:{parent}:{step}"
abbrev pub continuation_step : World → ℕ → String → String
continuation_step world parent step = join "c:" (join (world.uuid_text parent) (join ":" step))

-- A followup that has been checked: a job to create, or the job that a key names already.
pub data Child : Type 0 where
  fresh : EnqueueCommand → Child
  old : Job → Child

-- The command of a followup. The step of a member is the derived one.
abbrev child_command : World → Job → Followup → String → String → EnqueueCommand
child_command world job f queue key = record {
  queue = queue;
  job_type = f.job_type;
  payload = f.payload;
  priority = f.priority;
  scheduled_at = f.scheduled_at;
  idempotency_key = some key;
  concurrency_key = none;
  affinity_key = none;
  max_attempts = f.max_attempts;
  lease_seconds = f.lease_seconds;
  backoff_mode = none;
  backoff_base = none;
  backoff_cap = none;
  workflow_id = if f.workflow_member then job.command.workflow_id else none;
  step_key = if f.workflow_member then some (continuation_step world job.job_id f.step) else none;
  depends_on = none;
  headers = some f.headers;
  ttl_seconds = none;
  flow_key = if f.workflow_member then job.command.flow_key else none;
}

-- workflow is not None and queue not in workflow.declared_queues
undeclared : Option Workflow → String → Bool
unfolding contains
undeclared none queue = false
undeclared (some w) queue = not (contains queue w.declared_queues)

unfoldable pub child_at : Job → EnqueueCommand → Option ℕ → Act Child
child_at job command none = pure (fresh command)
child_at job command (some id) = do
  child ← find_job crash id
  raise_if
      (not (child.parent_job_id == some job.job_id) || not (same_command child.command command))
      internal
  pure (old child)

-- One round of the loop over the followups. `seen` holds the steps of the rounds before.
unfoldable pub plan_child : Job → Option Workflow → List String → Followup → Act Child
unfolding undeclared contains
plan_child job workflow seen f = do
  raise_if (contains f.step seen) config
  let queue = text_or f.queue job.command.queue
  known ← gets (λ c. contains queue c.known_queues)
  raise_if (not known) not_found
  raise_if (job.job_id == 0) config
  world ← gets (λ c. c.world)
  let key = continuation_key world job.job_id f.step
  existing ← gets (λ c. get (queue, key) c.active_keys)
  raise_if (f.workflow_member && undeclared workflow queue)
      (validation "continuation_queue_undeclared")
  child_at job (child_command world job f queue key) existing

unfoldable pub plan_children :
    Job → Option Workflow → List String → List Followup → Act (List Child)
plan_children job workflow seen [] = pure []
plan_children job workflow seen (f ∷ fs) = do
  child ← plan_child job workflow seen f
  rest ← plan_children job workflow (f.step ∷ seen) fs
  pure (child ∷ rest)

abbrev is_given {ℓ} : {A : Type ℓ} → Option A → Bool
is_given none = false
is_given (some a) = true

-- sum(followup.workflow_member is True for followup in followups)
unfoldable pub count_members : List Followup → ℕ
count_members [] = 0
count_members (f ∷ fs) = (if f.workflow_member then 1 else 0) + count_members fs

abbrev is_new_member : Child → Bool
is_new_member (fresh command) = is_given command.workflow_id
is_new_member (old job) = false

unfoldable pub count_new_members : List Child → ℕ
count_new_members [] = 0
count_new_members (k ∷ ks) = (if is_new_member k then 1 else 0) + count_new_members ks

abbrev policy_error : Option String → Option String → Option Error
policy_error none none = none
policy_error none (some given) = some (conflict "continuation_policy_mismatch" none)
policy_error (some hash) none = some (validation "continuation_policy_required")
policy_error (some hash) (some given) =
    if given == hash then none else some (conflict "continuation_policy_mismatch" none)

abbrev raise_some : Option Error → Act Unit
raise_some none c = (ok tt, c)
raise_some (some e) c = (raised e, c)

abbrev workflow_at : Option ℕ → Act (Option Workflow)
workflow_at none = pure none
workflow_at (some w) = do workflow ← find_workflow crash w; pure (some workflow)

abbrev over_limit : Option ℕ → ℕ → Bool
over_limit none total = true
over_limit (some limit) total = ltb limit total

unfoldable pub check_limit : Option Workflow → ℕ → Act Unit
check_limit workflow zero = pure tt
check_limit none (suc n) = throw crash
check_limit (some w) (suc n) =
    raise_if (over_limit w.member_limit (w.admitted_total + suc n))
      (conflict "workflow_member_limit_exceeded" none)

-- workflow.steps[step_key] = id; workflow.admitted_total += 1
unfoldable pub join_workflow : ℕ → Option String → Option ℕ → Act Unit
join_workflow id step none = pure tt
join_workflow id step (some w) = do
  step_key ← require crash step
  workflow ← find_workflow crash w
  modify (set_workflow w (admit_step step_key id workflow))

abbrev child_policy : Option String → EnqueueCommand → Option String
child_policy policy command = if is_given command.workflow_id then policy else none

-- The last loop of `complete`. The id of a new child is drawn where the child is stored; no step
-- between its draw in the source and here reads it.
unfoldable pub store_child : Job → Child → Act Unit
store_child job (fresh command) = do
  child ←
      store_job command queued (some job.job_id) (child_policy job.continuation_policy_hash command)
  modify (set_active command child.job_id)
  join_workflow child.job_id command.step_key command.workflow_id
  modify (log_enqueue child command created (some job.job_id))
store_child job (old child) = modify (log_enqueue child child.command existed (some job.job_id))

-- The checks of `complete`, and the children that they leave.
unfoldable pub plan_complete : List Followup → Option String → Job → Act (List Child)
unfolding count_members count_new_members
plan_complete followups policy job = do
  raise_some (policy_error job.continuation_policy_hash policy)
  workflow ← workflow_at job.command.workflow_id
  raise_if
      (ltb 0 (count_members followups)
        && not (is_given workflow && is_given job.continuation_policy_hash))
      (validation "continuation_parent_not_member")
  children ← plan_children job workflow [] followups
  check_limit workflow (count_new_members children)
  raise_if (ltb 20 (length followups)) invalid_model
  pure children

-- The settlement, and then the children.
unfoldable pub end_complete : ℕ → Json → List Followup → Job → List Child → Act SettleResult
end_complete id result followups job children = do
  finish id job SettleCommand.complete succeeded (some (HandlerResult.complete result followups))
      SettleOutcome.ok none none
  for_each children (store_child job)
  pure (record { result = SettleOutcome.ok; job_status = some succeeded; scheduled_at = none })

unfoldable pub complete_job : ℕ → Json → List Followup → Option String → Job → Act SettleResult
complete_job id result followups policy job = do
  children ← plan_complete followups policy job
  end_complete id result followups job children

unfoldable pub complete : ℕ → ℕ → String → Json → List Followup → Option String → Act SettleResult
complete id attempt worker result followups policy =
    settle id attempt worker SettleCommand.complete (complete_job id result followups policy)
