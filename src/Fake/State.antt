-- ===== src/Fake/State.antt =====
-- testing.py: the state of `FakeTaskQClient`, an in-memory queue with the contract of the SQL one.
use outlabs_taskq.Prelude.{
  true, ℕ, Bool, false, String, Option, List, [], ◌∷◌, ◌++◌, if◌then◌else◌, contains, nat_eq,
  string_eq, pair_eq,
}
use outlabs_taskq.Dict.{Dict, get, put}
use outlabs_taskq.Effects.{modify, Error, config, Action, require, raise_if}
use outlabs_taskq.Protocol.{
  Json, JobStatus, EnqueueCommand, EnqueueStatus, HandlerResult, SettleCommand, SettleOutcome,
  WorkflowKind, WorkflowStatus, ScheduleDefinition, ScheduleState, ScheduleActionResult,
  AdmissionJob,
}

-- What the client takes from the Python library: the values that successive calls of `uuid4` return,
-- `str` of a UUID and of a number, the order of texts, and the SHA-256 digest of a finished admission.
pub record World : Type 0 where
  pub text_le : String → String → Bool
  pub digest : AdmissionJob → Json → String
  pub uuid4 : ℕ → ℕ
  pub uuid_text : ℕ → String
  pub number_text : ℕ → String

-- _FakeJob
pub record Job : Type 0 where
  pub job_id : ℕ
  pub command : EnqueueCommand
  pub status : JobStatus
  pub attempt_id : Option ℕ
  pub worker_id : Option String
  pub attempt_number : ℕ
  pub failure_count : ℕ
  pub settled_command : Option SettleCommand
  pub parent_job_id : Option ℕ
  pub continuation_policy_hash : Option String

pub record RecordedEnqueue : Type 0 where
  pub job_id : ℕ
  pub queue : String
  pub job_type : String
  pub payload : Json
  pub headers : Json
  pub idempotency_key : Option String
  pub status : EnqueueStatus
  pub parent_job_id : Option ℕ

pub record RecordedSettlement : Type 0 where
  pub job_id : ℕ
  pub queue : String
  pub job_type : String
  pub command : SettleCommand
  pub intent : Option HandlerResult
  pub outcome : SettleOutcome
  pub cause : Option String

pub data AdmissionState : Type 0 where
  reserved admitted cancelled : AdmissionState

-- _FakeAdmission
pub record Admission : Type 0 where
  pub intent_hash : String
  pub handle : ℕ
  pub reservation_expires_at : ℕ
  pub receipt_ttl_seconds : ℕ
  pub state : AdmissionState
  pub finish_hash : Option String
  pub job_id : Option ℕ
  pub receipt : Option Json
  pub receipt_expires_at : Option ℕ

-- _FakeWorkflow
pub record Workflow : Type 0 where
  pub workflow_id : ℕ
  pub workflow_key : String
  pub kind : WorkflowKind
  pub params : Json
  pub declared_queues : List String
  pub sealed : Bool
  pub cancel_requested : Bool
  pub status : WorkflowStatus
  pub steps : Dict String ℕ
  pub member_limit : Option ℕ
  pub admitted_total : ℕ
  pub continuation_policy_hash : Option String

-- _FakeWorkerPresence
pub record WorkerPresence : Type 0 where
  pub worker_id : String
  pub declared_queues : List String
  pub version : Option String
  pub started_at : ℕ
  pub last_seen_at : ℕ
  pub shutdown_requested : Bool

-- _FakeSchedule
pub record Schedule : Type 0 where
  pub schedule_id : ℕ
  pub name : String
  pub definition : ScheduleDefinition
  pub state : ScheduleState
  pub next_fire_at : ℕ
  pub version : ℕ
  pub initialized : Bool
  pub last_fire_at : Option ℕ
  pub token : Option ℕ
  pub claim_as_of : Option ℕ
  pub claim_expires_at : Option ℕ
  pub retry_not_before : Option ℕ
  pub last_action_token : Option ℕ
  pub last_action : Option ScheduleActionResult

pub record Client : Type 0 where
  pub known_queues : List String
  pub jobs : Dict ℕ Job
  pub order : List ℕ
  pub active_keys : Dict (String × String) ℕ
  pub admissions : Dict (String × String) Admission
  pub workflows : Dict ℕ Workflow
  pub workflow_keys : Dict String ℕ
  pub schedules : Dict String Schedule
  pub workers : Dict String WorkerPresence
  pub enqueues : List RecordedEnqueue
  pub settlements : List RecordedSettlement
  pub closed : Bool
  pub world : World
  -- how many values of `uuid4` have been taken
  pub drawn : ℕ

abbrev pub Act : Type 0 → Type 0
Act A = Action Client A

-- FakeTaskQClient(queues=queues)
abbrev pub new : World → List String → Client
new world queues = record {
  known_queues = queues;
  jobs = [];
  order = [];
  active_keys = [];
  admissions = [];
  workflows = [];
  workflow_keys = [];
  schedules = [];
  workers = [];
  enqueues = [];
  settlements = [];
  closed = false;
  world = world;
  drawn = 0;
}

-- What the clock of the client answers: an instant, or a datetime without a time zone.
abbrev pub Reading : Type 0
Reading = Option ℕ

-- _now
abbrev pub read_clock : Reading → Act ℕ
read_clock now = require config now

-- _ensure_open
abbrev pub ensure_open : Act Unit
ensure_open c = raise_if c.closed config c

-- aclose
unfoldable pub aclose : Act Unit
aclose = modify (λ c. record c { closed = true })

-- self._known_queues.add(queue)
abbrev pub add_queue : String → Client → Client
add_queue q c =
    if contains q c.known_queues then c else record c { known_queues = c.known_queues ++ q ∷ [] }

-- The object that is stored under `id`; the error is raised where there is none.
abbrev pub find_job : Error → ℕ → Act Job
find_job e id c = require e (get id c.jobs) c

abbrev pub find_workflow : Error → ℕ → Act Workflow
find_workflow e id c = require e (get id c.workflows) c

-- An attribute of a stored object is assigned.
abbrev pub set_job : ℕ → Job → Client → Client
set_job id job c = record c { jobs = put id job c.jobs }

abbrev pub set_workflow : ℕ → Workflow → Client → Client
set_workflow id w c = record c { workflows = put id w c.workflows }
