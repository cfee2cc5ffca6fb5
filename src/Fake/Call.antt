-- ===== src/Fake/Call.antt =====
-- The methods of testing.py that change the state of a client, as data.
use outlabs_taskq.Prelude.{ℕ, Bool, String, Option, List}
use outlabs_taskq.Protocol.{
  Json, EnqueueCommand, EnqueueManyItem, Followup, AdmissionJob, ScheduleDefinition,
}
use outlabs_taskq.Fake.State.{Reading}
use outlabs_taskq.Fake.Workflow.{CreateRequest}
use outlabs_taskq.Fake.Claim.{ClaimRequest}
use outlabs_taskq.Fake.Settle.{Delay}
use outlabs_taskq.Fake.Admission.{ReserveRequest}

-- One call with its arguments. Each that reads the clock carries what the clock answers.
pub data Call : Type 0 where
  enqueue : EnqueueCommand → Call
  enqueue_many : String → List EnqueueManyItem → Call
  create_workflow : CreateRequest → Call
  seal_workflow : ℕ → Call
  cancel_workflow : ℕ → Call
  claim : Reading → ClaimRequest → Call
  heartbeat : Reading → ℕ → ℕ → String → Option ℕ → Call
  complete : ℕ → ℕ → String → Json → List Followup → Option String → Call
  fail : Reading → ℕ → ℕ → String → String → Bool → Option ℕ → Option Json → Call
  snooze : Reading → ℕ → ℕ → String → ℕ → Option String → Option Json → Call
  release : Reading → ℕ → ℕ → String → String → Delay → Call
  cancel_running : ℕ → ℕ → String → String → Call
  reserve_admission : Reading → String → ReserveRequest → Call
  finish_admission : Reading → String → String → ℕ → AdmissionJob → Json → Call
  cancel_admission : Reading → String → String → ℕ → Call
  put_schedule : Reading → String → ScheduleDefinition → Option ℕ → Call
  retire_schedule : String → ℕ → Call
  claim_schedules : Reading → ℕ → ℕ → Call
  fire_schedule : Reading → ℕ → ℕ → ℕ → List ℕ → ℕ → Call
  schedule_error : Reading → ℕ → ℕ → ℕ → ℕ → Call
  aclose : Call
  worker_heartbeat : Reading → String → List String → Option String → Call
