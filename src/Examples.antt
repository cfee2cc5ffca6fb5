-- ===== src/Examples.antt =====
-- Concrete inputs for the theorems.
mod Hub
mod Scheduler
mod Continuations
mod Errors
mod HttpClient
pub mod Runtime
use outlabs_taskq.Prelude.{
  ℕ, if◌then◌else◌, ◌++◌, ◌==◌, ◌+◌, ◌≤◌, ◌≡◌, refl, true, false, none, some, [], ◌∷◌, arith,
  contains, length, All, nat_eq, string_eq, pair_eq, option_eq,
}
use outlabs_taskq.Dict.{Dict, get, put}
use outlabs_taskq.Effects.{ok, raised, conflict}
use outlabs_taskq.Protocol.{
  JobStatus, queued, running, EnqueueCommand, created, existed, seconds, SettleCommand, lost,
  SettleResult, ClaimResult, ClaimState, AdmissionJob, ScheduleDefinition, ScheduleState, fire_all,
  interval,
}
use outlabs_taskq.Fake.State.{World, Job, Admission, AdmissionState, Schedule, Client, new}
use outlabs_taskq.Fake.Lifecycle.{Follows}
use outlabs_taskq.Fake.Call.{Call}
use outlabs_taskq.Fake.Trace.{step, run, run-Follows}
use outlabs_taskq.Fake.Enqueue.{
  enqueue, enqueue_plain, enqueue_new, store_job, record_enqueue, fresh_job,
}
use outlabs_taskq.Fake.Enqueue.Idempotence as Idempotence
use outlabs_taskq.Fake.Claim.{
  ClaimRequest, is_eligible, start_attempt, claimed_job, take_job, claim_loop, claim,
}
use outlabs_taskq.Fake.Claim.Fit.{InQueue, claim-queue}
use outlabs_taskq.Fake.Claim.Bounds.{claim-length}
use outlabs_taskq.Fake.Settle.Fence.{Settlement, call, refusal, call-refused}
use outlabs_taskq.Fake.Settle.Budget as Budget
use outlabs_taskq.Fake.Admission.{finish_admission, cancel_admission, already_admitted}
use outlabs_taskq.Fake.Admission.Receipts.{outcome, job_of, finished, finish-once}
use outlabs_taskq.Fake.Schedule.{put_schedule, retire_schedule, same_definition}
use outlabs_taskq.Fake.Schedule.Versions.{put-wins, retire-wins}
use outlabs_taskq.Fake.Workflow.Cascade.{cascade}
use outlabs_taskq.Fake.Workflow.Cascade.Sweep.{Swept, cascade-Swept}

abbrev world : World
world = record {
  text_le = λ a b. true;
  digest = λ job receipt. receipt;
  uuid4 = λ n. n + 1;
  uuid_text = λ n. "id";
  number_text = λ n. "number";
}

abbrev client : Client
client = new world ("mail" ∷ [])

abbrev send : EnqueueCommand
send = record {
  queue = "mail";
  job_type = "send";
  payload = "{}";
  priority = none;
  scheduled_at = none;
  idempotency_key = some "order-1";
  concurrency_key = none;
  affinity_key = none;
  max_attempts = some 3;
  lease_seconds = none;
  backoff_mode = none;
  backoff_base = none;
  backoff_cap = none;
  workflow_id = none;
  step_key = none;
  depends_on = none;
  headers = none;
  ttl_seconds = none;
  flow_key = none;
}

abbrev claim_mail : ClaimRequest
claim_mail = record {
  queue = "mail";
  worker_id = "w1";
  batch = 2;
  job_types = none;
  lease_seconds = none;
  affinity_key = none;
  job_id = none;
  supported = none;
}

abbrev first_job : Job
first_job = fresh_job send queued none none client

first_job_stored : get 1 (run (Call.enqueue send ∷ []) client).jobs ≡ some first_job
unfolding run step enqueue enqueue_plain enqueue_new store_job record_enqueue get put contains
first_job_stored = refl

run-Follows_example :
    (k : Job) × (get 1
        (run (Call.claim (some 5) claim_mail ∷ []) (run (Call.enqueue send ∷ []) client)).jobs
      ≡ some k)
    × Follows first_job k
run-Follows_example =
    run-Follows world ("mail" ∷ []) (Call.enqueue send ∷ []) (Call.claim (some 5) claim_mail ∷ []) 1
      first_job (λ m n e. omega arith) first_job_stored

no_key : get ("mail", "order-1") client.active_keys ≡ none
unfolding get
no_key = refl

enqueue-enqueue_example :
    let (first, after) = enqueue send client in
    let (second, later) = enqueue send after in
    (first ≡ ok (Idempotence.answer created 1 send none))
    × (second ≡ ok (Idempotence.answer existed 1 send none))
    × (later.jobs ≡ after.jobs)
enqueue-enqueue_example =
    Idempotence.enqueue-enqueue client send send "order-1" refl refl refl no_key refl refl refl

-- The first job under its first attempt, by worker w1.
abbrev running_job : Job
running_job = record first_job {
  status = running;
  attempt_id = some 2;
  worker_id = some "w1";
  attempt_number = 1;
}

abbrev busy : Client
busy = record client { jobs = (1, running_job) ∷ []; order = 1 ∷ []; drawn = 2 }

abbrev lost_result : SettleResult
lost_result = record { result = lost; job_status = none; scheduled_at = none }

busy_job : get 1 busy.jobs ≡ some running_job
unfolding get
busy_job = refl

w2_is_refused : refusal 2 "w2" SettleCommand.fail running_job ≡ some lost_result
unfolding refusal
w2_is_refused = refl

call-refused_example :
    call (Settlement.failing (some 9) "boom" true none none) 1 2 "w2" busy ≡ (ok lost_result, busy)
call-refused_example =
    call-refused (Settlement.failing (some 9) "boom" true none none) 1 2 "w2" busy running_job
      lost_result refl busy_job w2_is_refused

abbrev waiting : Client
waiting = record client { jobs = (1, first_job) ∷ []; order = 1 ∷ []; drawn = 1 }

abbrev claimed_result : ClaimResult
claimed_result = record {
  state = ClaimState.claimed;
  jobs = claimed_job claim_mail 5 2 (start_attempt claim_mail 2 first_job) ∷ [];
}

one_claimed : (claim (some 5) claim_mail waiting).0 ≡ ok claimed_result
unfolding claim contains get put is_eligible claim_loop take_job
one_claimed = refl

claim-length_example : length claimed_result.jobs ≤ 2
claim-length_example =
    claim-length (some 5) claim_mail waiting claimed_result (omega arith) one_claimed

claim-queue_example : All (InQueue claim_mail) claimed_result.jobs
claim-queue_example = claim-queue (some 5) claim_mail waiting claimed_result one_claimed

abbrev reserved : Admission
reserved = record {
  intent_hash = "h";
  handle = 7;
  reservation_expires_at = 50;
  receipt_ttl_seconds = 60;
  state = AdmissionState.reserved;
  finish_hash = none;
  job_id = none;
  receipt = none;
  receipt_expires_at = none;
}

abbrev admitting : Client
admitting = record client { admissions = (("mail", "key"), reserved) ∷ [] }

abbrev admission_job : AdmissionJob
admission_job = record {
  job_type = "send";
  payload = "{}";
  priority = none;
  scheduled_at = none;
  concurrency_key = none;
  affinity_key = none;
  max_attempts = none;
  lease_seconds = none;
  backoff_mode = none;
  backoff_base = none;
  backoff_cap = none;
  headers = none;
}

reserved_found : get ("mail", "key") admitting.admissions ≡ some reserved
unfolding get
reserved_found = refl

finish-once_example :
    let stored = outcome 1 "receipt" (10 + seconds 60) in
    let (first, d) = finish_admission (some 10) "mail" "key" 7 admission_job "receipt" admitting in
    (first ≡ ok (finished true stored))
    × (get 1 d.jobs
        ≡ (if ◌==◌ {A = ℕ} 1 1 then some (job_of 1 "mail" admission_job) else get 1 admitting.jobs))
    × (d.order ≡ admitting.order ++ 1 ∷ [])
    × (finish_admission (some 99) "mail" "key" 7 admission_job "receipt" d
        ≡ (ok (finished false stored), d))
    × (cancel_admission none "mail" "key" 7 d ≡ (ok (already_admitted stored), d))
finish-once_example =
    finish-once 10 (some 99) none "mail" "key" admission_job "receipt" admitting reserved 1 refl
      reserved_found refl (omega arith)

abbrev daily : ScheduleDefinition
daily = record {
  target = record {
    queue = "mail";
    job_type = "send";
    payload = "{}";
    headers = "{}";
    priority = none;
    max_attempts = none;
    lease_seconds = none;
    backoff_mode = none;
    backoff_base = none;
    backoff_cap = none;
    concurrency_key = none;
    affinity_key = none;
  };
  recurrence = interval 86400;
  catchup_policy = fire_all;
  max_catchup = 3;
  paused = false;
}

abbrev hourly : ScheduleDefinition
hourly = record daily { recurrence = interval 3600 }

abbrev stored_schedule : Schedule
stored_schedule = record {
  schedule_id = 1;
  name = "report";
  definition = daily;
  state = ScheduleState.active;
  next_fire_at = 0;
  version = 4;
  initialized = true;
  last_fire_at = none;
  token = none;
  claim_as_of = none;
  claim_expires_at = none;
  retry_not_before = none;
  last_action_token = none;
  last_action = none;
}

abbrev scheduling : Client
scheduling = record client { schedules = ("report", stored_schedule) ∷ [] }

schedule_found : get "report" scheduling.schedules ≡ some stored_schedule
unfolding get
schedule_found = refl

mail_known : contains "mail" scheduling.known_queues ≡ true
unfolding contains
mail_known = refl

hourly_differs : same_definition daily hourly ≡ false
unfolding same_definition
hourly_differs = refl

put-wins_example :
    let after = (put_schedule (some 8) "report" hourly (some 4) scheduling).1 in
    put_schedule none "report" daily (some 4) after
    ≡ (raised (conflict "schedule_version_conflict" (some 5)), after)
put-wins_example =
    put-wins 8 none "report" hourly daily scheduling stored_schedule refl schedule_found refl
      mail_known mail_known hourly_differs

retire-wins_example :
    let after = (retire_schedule "report" 4 scheduling).1 in
    let refused = raised (conflict "schedule_version_conflict" (some 5)) in
    (put_schedule none "report" hourly (some 4) after ≡ (refused, after))
    × (retire_schedule "report" 4 after ≡ (refused, after))
retire-wins_example =
    retire-wins none "report" hourly scheduling stored_schedule refl schedule_found refl mail_known

abbrev member : Job
member = record first_job {
  job_id = 2;
  status = JobStatus.blocked;
  command = record send { workflow_id = some 9; depends_on = some (1 ∷ []) };
}

-- One job waits on the failed one, and another on that.
abbrev members : Dict ℕ Job
members =
    (2, member)
    ∷ (
      3,
      record member { job_id = 3; command = record member.command { depends_on = some (2 ∷ []) } },
    )
    ∷ []

cascade-Swept_example :
    Swept 9 (1 ∷ []) [] members (cascade (length members + 2) 9 (1 ∷ []) [] members)
cascade-Swept_example = cascade-Swept 9 1 members
