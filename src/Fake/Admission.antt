-- ===== src/Fake/Admission.antt =====
-- `reserve_admission`, `finish_admission` and `cancel_admission` of testing.py.
pub mod Lifecycle
pub mod Receipts
use outlabs_taskq.Prelude.{
  ℕ, ◌+◌, ◌-◌, ◌/◌, Bool, true, false, not, String, Option, none, some, ◌==◌, ltb, leb,
  if◌then◌else◌, contains, max, nat_eq, string_eq, pair_eq, option_eq,
}
use outlabs_taskq.Dict.{get, put}
use outlabs_taskq.Effects.{
  not_found, invalid_model, conflict, ok, pure, throw, gets, require, modify, raise_if, ◌>>=◌, ◌>>◌,
}
use outlabs_taskq.Protocol.{Json, EnqueueCommand, AdmissionJob, seconds}
use outlabs_taskq.Fake.State.{
  Admission, AdmissionState, Client, Act, Reading, read_clock, ensure_open,
}
use outlabs_taskq.Fake.Enqueue.{enqueue}

-- An `AdmissionReserveRequest` that its validators accept, but for a handle that is still to draw.
pub record ReserveRequest : Type 0 where
  pub idempotency_key : String
  pub intent_hash : String
  pub handle : Option ℕ
  pub reservation_ttl_seconds : ℕ
  pub receipt_ttl_seconds : ℕ

pub data Reservation : Type 0 where
  reserved : (handle expires_at : ℕ) → Reservation
  pending : (expires_at retry_after : ℕ) → Reservation
  admitted : (job_id : ℕ) (receipt : Json) (expires_at : ℕ) → Reservation

-- The stored outcome of an admitted intent.
pub record Receipt : Type 0 where
  pub job_id : ℕ
  pub receipt : Json
  pub expires_at : ℕ

pub data CancelResult : Type 0 where
  already_admitted : Receipt → CancelResult
  already_cancelled expired cancelled : CancelResult

pub record FinishResult : Type 0 where
  pub created : Bool
  pub stored : Receipt

-- The result models refuse a missing field.
unfoldable pub stored_receipt : Admission → Act Receipt
stored_receipt a = do
  job_id ← require invalid_model a.job_id
  receipt ← require invalid_model a.receipt
  expires_at ← require invalid_model a.receipt_expires_at
  pure (record { job_id = job_id; receipt = receipt; expires_at = expires_at })

abbrev pub set_admission : String × String → Admission → Client → Client
set_admission identity a c = record c { admissions = put identity a c.admissions }

-- request.handle = handle or uuid4()
unfoldable pub draw_handle : Option ℕ → Act ℕ
draw_handle (some h) c = (ok h, c)
draw_handle none c = (ok (c.world.uuid4 c.drawn), record c { drawn = c.drawn + 1 })

abbrev pub new_admission : ReserveRequest → ℕ → ℕ → Admission
new_admission r handle now = record {
  intent_hash = r.intent_hash;
  handle = handle;
  reservation_expires_at = now + seconds r.reservation_ttl_seconds;
  receipt_ttl_seconds = r.receipt_ttl_seconds;
  state = AdmissionState.reserved;
  finish_hash = none;
  job_id = none;
  receipt = none;
  receipt_expires_at = none;
}

-- `state == "cancelled"`, or reserved and past its time
unfoldable pub is_free : ℕ → Admission → Bool
is_free now a = elim a.state [
  | AdmissionState.cancelled ↦ true
  | AdmissionState.reserved ↦ leb a.reservation_expires_at now
  | AdmissionState.admitted ↦ false
]

unfoldable pub reserve_free : String × String → ReserveRequest → ℕ → ℕ → Act Reservation
reserve_free identity r handle now = do
  let a = new_admission r handle now
  modify (set_admission identity a)
  pure (reserved handle a.reservation_expires_at)

-- max(1, int(total_seconds + 0.999))
abbrev retry_after : ℕ → ℕ → ℕ
retry_after expires now = max 1 ((expires - now + 999000) / 1000000)

unfoldable pub reserve_held : ℕ → ℕ → Admission → AdmissionState → Act Reservation
reserve_held handle now a AdmissionState.admitted = do
  r ← stored_receipt a
  pure (admitted r.job_id r.receipt r.expires_at)
reserve_held handle now a _ =
    if a.handle == handle then pure (reserved a.handle a.reservation_expires_at) else (do
      raise_if (ltb 3600 (retry_after a.reservation_expires_at now)) invalid_model
      pure (pending a.reservation_expires_at (retry_after a.reservation_expires_at now)))

unfoldable pub reserve_taken :
    String × String → ReserveRequest → ℕ → ℕ → Admission → Bool → Act Reservation
reserve_taken identity r handle now a true = reserve_free identity r handle now
reserve_taken identity r handle now a false = do
  raise_if (not (a.intent_hash == r.intent_hash)) (conflict "idempotency_mismatch" none)
  reserve_held handle now a a.state

unfoldable pub reserve_at :
    String × String → ReserveRequest → ℕ → ℕ → Option Admission → Act Reservation
reserve_at identity r handle now none = reserve_free identity r handle now
reserve_at identity r handle now (some a) = reserve_taken identity r handle now a (is_free now a)

unfoldable pub reserve_admission : Reading → String → ReserveRequest → Act Reservation
reserve_admission now queue r = do
  ensure_open
  handle ← draw_handle r.handle
  known ← gets (λ c. contains queue c.known_queues)
  raise_if (not known) not_found
  at ← read_clock now
  a ← gets (λ c. get (queue, r.idempotency_key) c.admissions)
  reserve_at (queue, r.idempotency_key) r handle at a

-- EnqueueCommand(queue=queue, **request.job.model_dump())
abbrev pub job_command : String → AdmissionJob → EnqueueCommand
job_command queue j = record {
  queue = queue;
  job_type = j.job_type;
  payload = j.payload;
  priority = j.priority;
  scheduled_at = j.scheduled_at;
  idempotency_key = none;
  concurrency_key = j.concurrency_key;
  affinity_key = j.affinity_key;
  max_attempts = j.max_attempts;
  lease_seconds = j.lease_seconds;
  backoff_mode = j.backoff_mode;
  backoff_base = j.backoff_base;
  backoff_cap = j.backoff_cap;
  workflow_id = none;
  step_key = none;
  depends_on = none;
  headers = j.headers;
  ttl_seconds = none;
  flow_key = none;
}

abbrev pub admitted_as : String → ℕ → Json → ℕ → Admission → Admission
admitted_as hash job_id receipt now a = record a {
  state = AdmissionState.admitted;
  finish_hash = some hash;
  job_id = some job_id;
  receipt = some receipt;
  receipt_expires_at = some (now + seconds a.receipt_ttl_seconds);
}

unfoldable pub finish_reserved :
    Reading → String × String → Admission → AdmissionJob → Json → String → Act FinishResult
finish_reserved now identity a job receipt hash = do
  at ← read_clock now
  raise_if (leb a.reservation_expires_at at) (conflict "reservation_expired" none)
  enqueued ← enqueue (job_command identity.0 job)
  modify (set_admission identity (admitted_as hash enqueued.job_id receipt at a))
  pure (record {
    created = true;
    stored = record {
      job_id = enqueued.job_id;
      receipt = receipt;
      expires_at = at + seconds a.receipt_ttl_seconds;
    };
  })

unfoldable pub finish_at :
    Reading
    → String × String
    → Admission
    → AdmissionJob
    → Json
    → String
    → AdmissionState
    → Act FinishResult
finish_at now identity a job receipt hash AdmissionState.admitted = do
  raise_if (not (a.finish_hash == some hash)) (conflict "finish_mismatch" none)
  stored ← stored_receipt a
  pure (record { created = false; stored = stored })
finish_at now identity a job receipt hash AdmissionState.cancelled =
    throw (conflict "reservation_cancelled" none)
finish_at now identity a job receipt hash AdmissionState.reserved =
    finish_reserved now identity a job receipt hash

unfoldable pub finish_admission :
    Reading → String → String → ℕ → AdmissionJob → Json → Act FinishResult
finish_admission now queue key handle job receipt = do
  ensure_open
  found ← gets (λ c. get (queue, key) c.admissions)
  a ← require not_found found
  raise_if (not (a.handle == handle)) (conflict "reservation_conflict" none)
  hash ← gets (λ c. c.world.digest job receipt)
  finish_at now (queue, key) a job receipt hash a.state

-- An expired reservation is reported, and stays as it is.
unfoldable pub cancel_unless_expired : String × String → Admission → Bool → Act CancelResult
cancel_unless_expired identity a true = pure expired
cancel_unless_expired identity a false = do
  modify (set_admission identity (record a { state = AdmissionState.cancelled }))
  pure CancelResult.cancelled

unfoldable pub cancel_reserved : Reading → String × String → Admission → Act CancelResult
cancel_reserved now identity a = do
  at ← read_clock now
  cancel_unless_expired identity a (leb a.reservation_expires_at at)

unfoldable pub cancel_at : Reading → String × String → Admission → AdmissionState → Act CancelResult
cancel_at now identity a AdmissionState.admitted = do
  r ← stored_receipt a
  pure (already_admitted r)
cancel_at now identity a AdmissionState.cancelled = pure already_cancelled
cancel_at now identity a AdmissionState.reserved = cancel_reserved now identity a

unfoldable pub cancel_admission : Reading → String → String → ℕ → Act CancelResult
cancel_admission now queue key handle = do
  ensure_open
  found ← gets (λ c. get (queue, key) c.admissions)
  a ← require not_found found
  raise_if (not (a.handle == handle)) (conflict "reservation_conflict" none)
  cancel_at now (queue, key) a a.state
