-- ===== src/Fake/Workflow/Cascade/Bounds.antt =====
-- The pending jobs, which bound the loop in `_advance_fake_workflow` that cancels what waits on a
-- failed job.
use outlabs_taskq.Prelude.{
  ℕ, ◌+◌, ◌≤◌, ◌≡◌, ◌||◌, List, [], ◌∷◌, arith, if◌then◌else◌, length, nat_eq,
}
use outlabs_taskq.Dict.{Dict, map_values}
use outlabs_taskq.Protocol.{is_blocked, is_queued}
use outlabs_taskq.Fake.State.{Job}
use outlabs_taskq.Fake.Workflow.Cascade.{waits_on, cancel_waiting, waiting_ids, push_all}

-- The jobs that are blocked or queued.
pub pending : Dict ℕ Job → ℕ
pending [] = 0
pending ((id, job) ∷ jobs) =
    (if is_blocked job.status || is_queued job.status then 1 else 0) + pending jobs

pub pending-bound : (jobs : Dict ℕ Job) → pending jobs ≤ length jobs
unfolding pending
pending-bound [] = omega arith
pending-bound ((id, job) ∷ jobs) = ground (arith, pending-bound jobs)

pub length-push_all :
    (ids frontier : List ℕ) → length (push_all ids frontier) ≡ length ids + length frontier
unfolding push_all
length-push_all [] frontier = omega arith
length-push_all (id ∷ ids) frontier = omega (arith, length-push_all ids (id ∷ frontier))

-- A round takes as many jobs out of the pending ones as it appends ids to the frontier.
pub pending-round :
    (w failed : ℕ) (jobs : Dict ℕ Job)
    → length (waiting_ids w failed jobs) + pending (map_values (cancel_waiting w failed) jobs)
      ≡ pending jobs
unfolding pending waiting_ids cancel_waiting map_values waits_on
pending-round w failed [] = omega arith
pending-round w failed ((id, job) ∷ jobs) = ground (arith, pending-round w failed jobs)
