-- ===== src/Fake/Workflow/Cascade.antt =====
-- The loop of `_advance_fake_workflow` that cancels what waits on a job that failed.
pub mod Bounds
pub mod Rounds
pub mod Sweep
use outlabs_taskq.Prelude.{
  ℕ, zero, suc, Bool, true, false, ◌&&◌, ◌||◌, none, some, List, [], ◌∷◌, ◌==◌, if◌then◌else◌,
  contains, nat_eq, option_eq,
}
use outlabs_taskq.Dict.{Dict, map_values}
use outlabs_taskq.Protocol.{JobStatus, EnqueueCommand, is_blocked, is_queued}
use outlabs_taskq.Fake.State.{Job}

-- command.depends_on or ()
abbrev pub dependencies : EnqueueCommand → List ℕ
dependencies command = elim command.depends_on [ none ↦ [] | some ids ↦ ids ]

-- A pending member of the workflow that depends on the failed job.
unfoldable pub waits_on : ℕ → ℕ → Job → Bool
unfolding contains
waits_on w failed job =
    job.command.workflow_id == some w
    && (is_blocked job.status || is_queued job.status)
    && contains failed (dependencies job.command)

unfoldable pub cancel_waiting : ℕ → ℕ → Job → Job
unfolding waits_on
cancel_waiting w failed job =
    if waits_on w failed job then record job { status = JobStatus.cancelled } else job

-- The ids that the inner loop appends to the frontier.
unfoldable pub waiting_ids : ℕ → ℕ → Dict ℕ Job → List ℕ
unfolding waits_on
waiting_ids w failed [] = []
waiting_ids w failed ((id, job) ∷ jobs) =
    let rest = waiting_ids w failed jobs in
    if waits_on w failed job then job.job_id ∷ rest else rest

-- The frontier stands with its end first: `pop` takes the head, and what is appended is pushed.
unfoldable pub push_all : List ℕ → List ℕ → List ℕ
push_all [] frontier = frontier
push_all (id ∷ ids) frontier = push_all ids (id ∷ frontier)

unfoldable pub cascade : ℕ → ℕ → List ℕ → List ℕ → Dict ℕ Job → Dict ℕ Job
unfolding contains cancel_waiting waiting_ids push_all map_values
cascade zero w frontier seen jobs = jobs
cascade (suc fuel) w [] seen jobs = jobs
cascade (suc fuel) w (failed ∷ frontier) seen jobs = elim (contains failed seen) [
  | true ↦ cascade fuel w frontier seen jobs
  | false ↦
      cascade fuel w (push_all (waiting_ids w failed jobs) frontier) (failed ∷ seen)
        (map_values (cancel_waiting w failed) jobs)
]
