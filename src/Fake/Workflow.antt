-- ===== src/Fake/Workflow.antt =====
-- The workflow methods of testing.py, and `_advance_fake_workflow`.
pub mod Cascade
pub mod Lifecycle
use outlabs_taskq.Prelude.{
  ℕ, ◌+◌, Bool, true, false, not, ◌&&◌, ◌||◌, String, Option, none, some, List, [], ◌∷◌, ◌==◌,
  if◌then◌else◌, contains, any, all, is_empty, length, nat_eq, string_eq, pair_eq, option_eq,
  list_beq,
}
use outlabs_taskq.Dict.{get, put, keys, values}
use outlabs_taskq.Effects.{
  not_found, crash, conflict, ok, pure, gets, modify, raise_if, ◌>>=◌, ◌>>◌, for_each, when,
}
use outlabs_taskq.Protocol.{
  Json, JobStatus, is_blocked, is_queued, is_running, is_failed, is_cancelled, is_succeeded,
  WorkflowKind, WorkflowStatus, is_workflow_running, kind_beq,
}
use outlabs_taskq.Fake.State.{
  Workflow, Client, Act, ensure_open, find_job, find_workflow, set_job, set_workflow,
}
use Cascade.{cascade, dependencies}

pub data WorkflowOutcome : Type 0 where
  created existed sealed already_sealed cancel_requested already_requested already_terminal :
      WorkflowOutcome

pub record WorkflowResult : Type 0 where
  pub outcome : WorkflowOutcome
  pub workflow_id : ℕ
  pub status : WorkflowStatus

-- A `CreateWorkflowWireRequest` that its validators accept.
pub record CreateRequest : Type 0 where
  pub workflow_key : String
  pub kind : WorkflowKind
  pub params : Json
  pub declared_queues : List String
  pub member_limit : Option ℕ
  pub continuation_policy_hash : Option String

-- `continuation.member_limit`: the options are built only where one of the two fields is given.
abbrev effective_limit : CreateRequest → Option ℕ
effective_limit r = elim r.member_limit [
  | some n ↦ some n
  | none ↦ elim r.continuation_policy_hash [ none ↦ none | some h ↦ some 10000 ]
]

abbrev insert_text : (String → String → Bool) → String → List String → List String
insert_text le s [] = s ∷ []
insert_text le s (t ∷ ts) =
    let rest = insert_text le s ts in if le s t then s ∷ t ∷ ts else t ∷ rest

-- sorted(...) under the order `le` of texts
abbrev pub sort_texts : (String → String → Bool) → List String → List String
sort_texts le [] = []
sort_texts le (s ∷ ss) = insert_text le s (sort_texts le ss)

abbrev same_request : CreateRequest → List String → Workflow → Bool
same_request r queues w =
    kind_beq w.kind r.kind
    && w.params == r.params
    && list_beq w.declared_queues queues
    && w.member_limit == effective_limit r
    && w.continuation_policy_hash == r.continuation_policy_hash

new_workflow : CreateRequest → List String → Client → Workflow
new_workflow r queues c = record {
  workflow_id = c.world.uuid4 c.drawn;
  workflow_key = r.workflow_key;
  kind = r.kind;
  params = r.params;
  declared_queues = queues;
  sealed = false;
  cancel_requested = false;
  status = WorkflowStatus.running;
  steps = [];
  member_limit = effective_limit r;
  admitted_total = 0;
  continuation_policy_hash = r.continuation_policy_hash;
}

store_workflow : CreateRequest → List String → Act Workflow
unfolding new_workflow
store_workflow r queues c =
    let w = new_workflow r queues c in
    (
      ok w,
      record c {
        workflows = put w.workflow_id w c.workflows;
        workflow_keys = put r.workflow_key w.workflow_id c.workflow_keys;
        drawn = c.drawn + 1;
      },
    )

abbrev workflow_result : WorkflowOutcome → Workflow → WorkflowResult
workflow_result outcome w = record {
  outcome = outcome;
  workflow_id = w.workflow_id;
  status = w.status;
}

create_at : CreateRequest → List String → Option ℕ → Act WorkflowResult
unfolding store_workflow list_beq any contains
create_at r queues (some id) = do
  w ← find_workflow crash id
  raise_if (not (same_request r queues w)) (conflict "workflow_mismatch" none)
  pure (workflow_result existed w)
create_at r queues none = do
  known ← gets (λ c. c.known_queues)
  raise_if (is_empty queues || any (λ q. not (contains q known)) queues) not_found
  w ← store_workflow r queues
  pure (workflow_result created w)

unfoldable pub create_workflow : CreateRequest → Act WorkflowResult
unfolding create_at
create_workflow r = do
  ensure_open
  le ← gets (λ c. c.world.text_le)
  known ← gets (λ c. get r.workflow_key c.workflow_keys)
  create_at r (sort_texts le r.declared_queues) known

-- [self._jobs[id].status for id in ids]
unfoldable pub statuses_of : List ℕ → Act (List JobStatus)
statuses_of [] = pure []
statuses_of (id ∷ ids) = do
  job ← find_job crash id
  rest ← statuses_of ids
  pure (job.status ∷ rest)

-- The status that `_refresh_workflow` assigns to a sealed workflow.
unfoldable pub refreshed : Bool → List JobStatus → WorkflowStatus → WorkflowStatus
unfolding any all
refreshed true statuses old =
    if all (λ s. not (is_running s)) statuses then WorkflowStatus.cancelled else old
refreshed false statuses old =
    if any is_failed statuses
    then WorkflowStatus.failed
    else if any is_cancelled statuses
    then WorkflowStatus.cancelled
    else if all is_succeeded statuses
    then WorkflowStatus.succeeded
    else old

refresh_sealed : ℕ → Workflow → Bool → Act Unit
unfolding refreshed statuses_of
refresh_sealed id w false = pure tt
refresh_sealed id w true = do
  statuses ← statuses_of (values w.steps)
  modify (set_workflow id (record w { status = refreshed w.cancel_requested statuses w.status }))

-- _refresh_workflow
unfoldable pub refresh_workflow : ℕ → Act Unit
unfolding refresh_sealed
refresh_workflow id = do w ← find_workflow crash id; refresh_sealed id w w.sealed

unfoldable pub seal_workflow : ℕ → Act WorkflowResult
unfolding refresh_workflow
seal_workflow id = do
  ensure_open
  w ← find_workflow not_found id
  modify (set_workflow id (record w { sealed = true }))
  refresh_workflow id
  after ← find_workflow crash id
  pure (workflow_result (if w.sealed then already_sealed else sealed) after)

-- The loop body of `cancel_workflow`.
cancel_pending : ℕ → Act Unit
cancel_pending id = do
  job ← find_job crash id
  when (is_blocked job.status || is_queued job.status)
      (modify (set_job id (record job { status = JobStatus.cancelled })))

request_cancel : ℕ → Workflow → Act Unit
unfolding cancel_pending refresh_workflow for_each
request_cancel id w = do
  modify (set_workflow id (record w { cancel_requested = true; sealed = true }))
  for_each (values w.steps) cancel_pending
  refresh_workflow id

cancel_at : ℕ → Workflow → Bool → Bool → Act WorkflowOutcome
unfolding request_cancel
cancel_at id w false requested = pure already_terminal
cancel_at id w true true = pure already_requested
cancel_at id w true false = do request_cancel id w; pure cancel_requested

unfoldable pub cancel_workflow : ℕ → Act WorkflowResult
unfolding cancel_at
cancel_workflow id = do
  ensure_open
  w ← find_workflow not_found id
  outcome ← cancel_at id w (is_workflow_running w.status) w.cancel_requested
  after ← find_workflow crash id
  pure (workflow_result outcome after)

-- [self._jobs[id] for id in ids], all succeeded
all_succeeded : List ℕ → Act Bool
all_succeeded [] = pure true
all_succeeded (id ∷ ids) = do
  job ← find_job crash id
  rest ← all_succeeded ids
  pure (is_succeeded job.status && rest)

-- The loop body of `_advance_fake_workflow` after a success.
unblock : ℕ → ℕ → ℕ → Act Unit
unfolding contains all_succeeded
unblock w parent id = do
  job ← find_job crash id
  when
      (job.command.workflow_id == some w
        && is_blocked job.status
        && contains parent (dependencies job.command))
      (do
        done ← all_succeeded (dependencies job.command)
        when done (modify (set_job id (record job { status = JobStatus.queued }))))

unblock_all : ℕ → ℕ → Act Unit
unfolding unblock for_each
unblock_all w parent c = for_each (keys c.jobs) (unblock w parent) c

-- Each round takes one id off the frontier, and each id that it adds cancels a job: one more round
-- than there are jobs, and the test that ends the loop.
cascade_all : ℕ → ℕ → Client → Client
unfolding cascade
cascade_all w parent c = record c { jobs = cascade (length c.jobs + 2) w (parent ∷ []) [] c.jobs }

advance_at : ℕ → ℕ → Bool → Act Unit
unfolding unblock_all cascade_all
advance_at w parent true = unblock_all w parent
advance_at w parent false = modify (cascade_all w parent)

-- _advance_fake_workflow
unfoldable pub advance_workflow : ℕ → ℕ → JobStatus → Act Unit
unfolding advance_at refresh_workflow
advance_workflow w parent status = do
  find_workflow crash w
  advance_at w parent (is_succeeded status)
  refresh_workflow w
