-- ===== src/Fake/Claim.antt =====
-- `claim` of testing.py.
pub mod Lifecycle
pub mod Bounds
pub mod Fit
use outlabs_taskq.Prelude.{
  ℕ, ◌+◌, Bool, true, false, ◌&&◌, ◌||◌, String, Option, none, some, List, [], ◌∷◌, ◌++◌, ◌==◌,
  if◌then◌else◌, ltb, leb, contains, length, is_empty, nat_eq, string_eq, option_eq,
}
use outlabs_taskq.Effects.{crash, invalid_model, pure, gets, modify, raise_if, ◌>>=◌, ◌>>◌}
use outlabs_taskq.Protocol.{
  running, is_queued, ClaimedJob, claimed, empty, unknown_queue, ClaimResult, or_default, text_or,
  seconds,
}
use outlabs_taskq.Fake.State.{Job, Act, Reading, read_clock, ensure_open, find_job, set_job}

-- The arguments of one claim. `supported` is `supported_policy_hashes`, after its validation.
pub record ClaimRequest : Type 0 where
  pub queue : String
  pub worker_id : String
  pub batch : ℕ
  pub job_types : Option (List String)
  pub lease_seconds : Option ℕ
  pub affinity_key : Option String
  pub job_id : Option ℕ
  pub supported : Option (List String)

-- `given is None or value == given`
abbrev matches_id : Option ℕ → ℕ → Bool
matches_id none id = true
matches_id (some given) id = id == given

abbrev matches_type : Option (List String) → String → Bool
matches_type none t = true
matches_type (some ts) t = contains t ts

abbrev matches_affinity : Option String → Option String → Bool
matches_affinity none key = true
matches_affinity (some given) key = key == some given

abbrev contains_hash : Option (List String) → String → Bool
contains_hash none h = false
contains_hash (some hs) h = contains h hs

abbrev supports : Option (List String) → Option String → Bool
supports supported none = true
supports supported (some hash) = contains_hash supported hash

-- `scheduled_at` is absent or has come
abbrev is_due : Option ℕ → ℕ → Bool
is_due none now = true
is_due (some at) now = leb at now

-- No `continue` of the loop body is taken.
unfoldable pub is_eligible : ClaimRequest → ℕ → Job → Bool
unfolding contains
is_eligible r now job =
    is_queued job.status
    && job.command.queue == r.queue
    && matches_id r.job_id job.job_id
    && matches_type r.job_types job.command.job_type
    && matches_affinity r.affinity_key job.command.affinity_key
    && supports r.supported job.continuation_policy_hash
    && is_due job.command.scheduled_at now

-- lease_seconds or command.lease_seconds or 60
abbrev pub lease_of : ClaimRequest → Job → ℕ
lease_of r job = or_default r.lease_seconds (or_default job.command.lease_seconds 60)

-- The job with its new attempt.
abbrev pub start_attempt : ClaimRequest → ℕ → Job → Job
start_attempt r attempt job = record job {
  status = running;
  attempt_id = some attempt;
  worker_id = some r.worker_id;
  attempt_number = job.attempt_number + 1;
  settled_command = none;
}

abbrev pub claimed_job : ClaimRequest → ℕ → ℕ → Job → ClaimedJob
claimed_job r now attempt job = record {
  job_id = job.job_id;
  queue = job.command.queue;
  job_type = job.command.job_type;
  priority = or_default job.command.priority 0;
  payload = job.command.payload;
  headers = text_or job.command.headers "{}";
  attempt_id = attempt;
  attempt_number = job.attempt_number;
  failure_count = job.failure_count;
  max_attempts = or_default job.command.max_attempts 10;
  lease_expires_at = now + seconds (lease_of r job);
  lease_seconds = lease_of r job;
  workflow_id = job.command.workflow_id;
  step_key = job.command.step_key;
  continuation_policy_hash = job.continuation_policy_hash;
}

-- The `ClaimedJob` of a started attempt, which refuses some leases.
unfoldable pub deliver : ClaimRequest → ℕ → ℕ → Job → Act ClaimedJob
deliver r now attempt job = do
  raise_if (ltb (lease_of r job) 15 || ltb 86400 (lease_of r job)) invalid_model
  pure (claimed_job r now attempt job)

-- One candidate that is taken. A lease that `ClaimedJob` refuses raises when the job runs already.
unfoldable pub take_job : ClaimRequest → ℕ → ℕ → Job → Act ClaimedJob
unfolding deliver
take_job r now id job = do
  attempt ← gets (λ c. c.world.uuid4 c.drawn)
  let started = start_attempt r attempt job
  modify (λ c. record (set_job id started c) { drawn = c.drawn + 1 })
  deliver r now attempt started

-- The loop over `_order`; `selected` holds what is taken so far.
unfoldable pub claim_loop : ClaimRequest → ℕ → List ClaimedJob → List ℕ → Act (List ClaimedJob)
claim_loop r now selected [] = pure selected
claim_loop r now selected (id ∷ ids) = do
  job ← find_job crash id
  elim (is_eligible r now job) [
    | false ↦ claim_loop r now selected ids
    | true ↦ do
      taken ← take_job r now id job
      elim (leb r.batch (length (selected ++ taken ∷ []))) [
        | true ↦ pure (selected ++ taken ∷ [])
        | false ↦ claim_loop r now (selected ++ taken ∷ []) ids
      ]
  ]

abbrev claim_result : List ClaimedJob → ClaimResult
claim_result jobs = record { state = if is_empty jobs then empty else claimed; jobs = jobs }

unfoldable pub claim_known : Reading → ClaimRequest → Bool → Act ClaimResult
claim_known now r false = pure (record { state = unknown_queue; jobs = [] })
claim_known now r true = do
  at ← read_clock now
  order ← gets (λ c. c.order)
  jobs ← claim_loop r at [] order
  pure (claim_result jobs)

unfoldable pub claim : Reading → ClaimRequest → Act ClaimResult
unfolding claim_known
claim now r = do
  ensure_open
  known ← gets (λ c. contains r.queue c.known_queues)
  claim_known now r known
