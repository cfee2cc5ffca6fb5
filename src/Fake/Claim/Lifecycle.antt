-- ===== src/Fake/Claim/Lifecycle.antt =====
-- `claim` only moves jobs on.
use outlabs_taskq.Prelude.{
  ℕ, ◌+◌, ◌≡◌, refl, Bool, true, false, some, List, [], ◌∷◌, ◌++◌, arith, inl, inr, Bool-cases, leb,
  length, nat_eq,
}
use outlabs_taskq.Dict.{get}
use outlabs_taskq.Effects.{crash, pure}
use outlabs_taskq.Effects.Keeps.{Keeps}
use outlabs_taskq.Protocol.{queued, ClaimedJob}
use outlabs_taskq.Fake.State.{Job, Client, Act, Reading, set_job}
use outlabs_taskq.Fake.Claim.{
  ClaimRequest, is_eligible, start_attempt, deliver, take_job, claim_loop, claim_known, claim,
}
use outlabs_taskq.Fake.Lifecycle.{Follows, Mutates, Mutates-IsPreorder}
use outlabs_taskq.Fake.Lifecycle.Mutation.{
  set_job-Mutates, same_jobs, mutation_rules, result_keeps, Keeps-find_job,
}

eligible_queued :
    (r : ClaimRequest) (now : ℕ) (job : Job) → is_eligible r now job ≡ true → job.status ≡ queued
unfolding is_eligible
eligible_queued r now job h = ground arith

start_attempt-Follows :
    (r : ClaimRequest) (attempt : ℕ) (j : Job)
    → j.status ≡ queued
    → Follows j (start_attempt r attempt j)
start_attempt-Follows r attempt j q = record {
  job_id = refl;
  queue = refl;
  job_type = refl;
  idempotency_key = refl;
  workflow_id = refl;
  parent_job_id = refl;
  status = ground arith;
  attempts = omega arith;
  failures = omega arith;
}

deliver-Keeps :
    (r : ClaimRequest) (now attempt : ℕ) (job : Job) → Keeps Mutates (deliver r now attempt job)
unfolding deliver
deliver-Keeps r now attempt job = search mutation_rules

take_job-Mutates :
    (r : ClaimRequest) (now id : ℕ) (job : Job) (c : Client)
    → get id c.jobs ≡ some job
    → job.status ≡ queued
    → Mutates c (take_job r now id job c).1
unfolding take_job
take_job-Mutates r now id job c e q =
    let started = start_attempt r (c.world.uuid4 c.drawn) job in
    let d = record (set_job id started c) { drawn = c.drawn + 1 } in
    Mutates-IsPreorder.trans_at c (set_job id started c) _
      (set_job-Mutates c id job started e (start_attempt-Follows r _ job q))
      (Mutates-IsPreorder.trans_at (set_job id started c) d _
        (same_jobs _ d refl (omega arith) refl)
        ((deliver-Keeps r now (c.world.uuid4 c.drawn) started).at d))

-- What follows a job that is taken: the batch is full, or the loop goes on.
go_on-Mutates :
    (r : ClaimRequest) (now : ℕ) (selected : List ClaimedJob) (ids : List ℕ) (taken : ClaimedJob)
    → ((more : List ClaimedJob) → Keeps Mutates (claim_loop r now more ids))
    → (b : Bool) (c : Client)
    → Mutates c
        ((elim b as (λ x. Act (List ClaimedJob)) [
          | true ↦ pure (selected ++ taken ∷ [])
          | false ↦ claim_loop r now (selected ++ taken ∷ []) ids
        ])
          c).1
go_on-Mutates r now selected ids taken h true c = Mutates-IsPreorder.refl_at c
go_on-Mutates r now selected ids taken h false c = (h (selected ++ taken ∷ [])).at c

claim_loop-Keeps :
    (r : ClaimRequest) (now : ℕ) (selected : List ClaimedJob) (ids : List ℕ)
    → Keeps Mutates (claim_loop r now selected ids)
unfolding claim_loop
claim_loop-Keeps r now selected [] = search mutation_rules
claim_loop-Keeps r now selected (id ∷ ids) = Keeps-find_job crash id _ λ c job e.
    elim (Bool-cases (is_eligible r now job)) [
      | inl take ↦ rw take (
          Mutates-IsPreorder.trans_at c (take_job r now id job c).1 _
            (take_job-Mutates r now id job c e (eligible_queued r now job take))
            (result_keeps (take_job r now id job c).0 _ (take_job r now id job c).1 λ taken.
              go_on-Mutates r now selected ids taken (λ more. claim_loop-Keeps r now more ids)
                (leb r.batch (length (selected ++ taken ∷ []))) (take_job r now id job c).1))
      | inr pass ↦ rw pass ((claim_loop-Keeps r now selected ids).at c)
    ]

claim_known-Keeps :
    (now : Reading) (r : ClaimRequest) (b : Bool) → Keeps Mutates (claim_known now r b)
unfolding claim_known
claim_known-Keeps now r false = search mutation_rules
claim_known-Keeps now r true = search (mutation_rules, claim_loop-Keeps) depth 9

pub claim-Keeps : (now : Reading) (r : ClaimRequest) → Keeps Mutates (claim now r)
unfolding claim
claim-Keeps now r = search (mutation_rules, claim_known-Keeps) depth 9
