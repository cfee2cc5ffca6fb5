-- ===== src/Fake/Admission/Receipts.antt =====
-- What is final about an admission of testing.py.
use outlabs_taskq.Prelude.{
  ℕ, ◌+◌, ◌<◌, ◌≡◌, Bool, true, false, String, none, some, [], ◌∷◌, ◌++◌, if◌then◌else◌, arith,
  nat_eq, string_eq, pair_eq, nat_beq_refl, ◌==◌, option_eq, beq_refl,
}
use outlabs_taskq.Dict.{get, get-put, get-put_self}
use outlabs_taskq.Effects.{ok}
use outlabs_taskq.Protocol.{Json, AdmissionJob, queued, seconds}
use outlabs_taskq.Fake.State.{Job, Admission, AdmissionState, Client, Reading}
use outlabs_taskq.Fake.Enqueue.{enqueue, enqueue_plain, enqueue_new, store_job, record_enqueue}
use outlabs_taskq.Fake.Admission.{
  FinishResult, Receipt, already_admitted, finish_admission, finish_at, finish_reserved,
  stored_receipt, cancel_admission, cancel_at, admitted_as,
}

abbrev pub outcome : ℕ → Json → ℕ → Receipt
outcome id receipt at = record { job_id = id; receipt = receipt; expires_at = at }

abbrev pub finished : Bool → Receipt → FinishResult
finished created stored = record { created = created; stored = stored }

-- The job that the outcome is about: queued, never attempted, with the fields of the admission.
pub job_of : ℕ → String → AdmissionJob → Job
job_of id queue j = record {
  job_id = id;
  command = record {
    queue = queue;
    job_type = j.job_type;
    payload = j.payload;
    priority = j.priority;
    scheduled_at = j.scheduled_at;
    idempotency_key = none;
    concurrency_key = j.concurrency_key;
    affinity_key = j.affinity_key;
    max_attempts = j.max_attempts;
    lease_seconds = j.lease_seconds;
    backoff_mode = j.backoff_mode;
    backoff_base = j.backoff_base;
    backoff_cap = j.backoff_cap;
    workflow_id = none;
    step_key = none;
    depends_on = none;
    headers = j.headers;
    ttl_seconds = none;
    flow_key = none;
  };
  status = queued;
  attempt_id = none;
  worker_id = none;
  attempt_number = 0;
  failure_count = 0;
  settled_command = none;
  parent_job_id = none;
  continuation_policy_hash = none;
}

-- The client is open, and a reservation with this handle has not run out. The first `finish` stores
-- one queued job with the fields of the admission under a drawn id, at the end of the order, changes
-- no job under another id, and answers with its receipt. Every later `finish` with the same job and
-- receipt answers with the same receipt and `created = false`, and leaves the client as it is, also
-- when the time of the reservation has passed; and every later `cancel` reports the receipt and
-- leaves the client as it is.
pub finish-once :
    (now : ℕ) (later last : Reading) (queue key : String) (job : AdmissionJob) (receipt : Json)
    (c : Client) (a : Admission) (k : ℕ)
    → c.closed ≡ false
    → get (queue, key) c.admissions ≡ some a
    → a.state ≡ AdmissionState.reserved
    → now < a.reservation_expires_at
    → let id = c.world.uuid4 c.drawn in
      let stored = outcome id receipt (now + seconds a.receipt_ttl_seconds) in
      let (first, d) = finish_admission (some now) queue key a.handle job receipt c in
      (first ≡ ok (finished true stored))
      × (get k d.jobs ≡ (if id == k then some (job_of id queue job) else get k c.jobs))
      × (d.order ≡ c.order ++ id ∷ [])
      × (finish_admission later queue key a.handle job receipt d ≡ (ok (finished false stored), d))
      × (cancel_admission last queue key a.handle d ≡ (ok (already_admitted stored), d))
unfolding finish_admission finish_at finish_reserved stored_receipt cancel_admission cancel_at
    enqueue enqueue_plain enqueue_new store_job record_enqueue job_of
finish-once now later last queue key job receipt c a k closed found s time =
    let hash = c.world.digest job receipt in
    let id = c.world.uuid4 c.drawn in
    let final = admitted_as hash id receipt now a in
    let kept = get-put_self (queue, key) final c.admissions in
    let entered = get-put id k (job_of id queue job) c.jobs in
    let same_hash : (hash == hash) ≡ true = beq_refl hash in
    ground (arith, kept, entered, same_hash, nat_beq_refl a.handle)
