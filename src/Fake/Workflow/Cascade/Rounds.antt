-- ===== src/Fake/Workflow/Cascade/Rounds.antt =====
-- One round of the loop of `_advance_fake_workflow` that cancels what waits on a failed job.
use outlabs_taskq.Prelude.{
  ℕ, ◌≡◌, refl, subst, true, false, ◌||◌, List, [], ◌∷◌, arith, inl, inr, Bool-cases, contains,
  nat_eq, All, ◌==◌, nat_beq_refl,
}
use outlabs_taskq.Dict.{Dict, map_values}
use outlabs_taskq.Protocol.{JobStatus}
use outlabs_taskq.Fake.State.{Job}
use outlabs_taskq.Fake.Workflow.Cascade.{waits_on, cancel_waiting, waiting_ids, push_all}

-- The ids that the failure reaches: those of the frontier, and that of each pending member which
-- depends on one that is reached.
pub data Reach (w : ℕ) (jobs : Dict ℕ Job) (frontier : List ℕ) : ℕ → Type 0 where
  start : (id : ℕ) → contains id frontier ≡ true → Reach w jobs frontier id
  further :
      (id parent : ℕ)
      → Reach w jobs frontier parent
      → contains id (waiting_ids w parent jobs) ≡ true
      → Reach w jobs frontier id

-- A job stays as it is; or it waited on a reached id, is cancelled, and its own id is reached.
pub data Change (w : ℕ) (seen : List ℕ) (job job' : Job) : Type 0 where
  kept : job' ≡ job → Change w seen job job'
  dropped :
      (parent : ℕ)
      → contains parent seen ≡ true
      → waits_on w parent job ≡ true
      → contains job.job_id seen ≡ true
      → job' ≡ record job { status = JobStatus.cancelled }
      → Change w seen job job'

abbrev pub Changes : ℕ → List ℕ → Dict ℕ Job → Dict ℕ Job → Type 0
Changes w seen [] [] = Unit
Changes w seen [] (b ∷ bs) = ⊥
Changes w seen (a ∷ as_) [] = ⊥
Changes w seen (a ∷ as_) (b ∷ bs) = (b.0 ≡ a.0) × Change w seen a.1 b.1 × Changes w seen as_ bs

abbrev pub Closed : ℕ → List ℕ → Dict ℕ Job → Type 0
Closed w seen jobs =
    (id : ℕ) → contains id seen ≡ true → All (λ kv. waits_on w id kv.1 ≡ false) jobs

module _ (w failed : ℕ) where
  waits_on-cancel_waiting : (job : Job) → waits_on w failed (cancel_waiting w failed job) ≡ false
  unfolding waits_on cancel_waiting
  waits_on-cancel_waiting job = ground arith

  waits_on-cancelled :
      (job : Job) → waits_on w failed (record job { status = JobStatus.cancelled }) ≡ false
  unfolding waits_on
  waits_on-cancelled job = ground arith

  cancel_waiting-keeps :
      (id : ℕ) (job : Job)
      → waits_on w id job ≡ false
      → waits_on w id (cancel_waiting w failed job) ≡ false
  unfolding waits_on cancel_waiting
  cancel_waiting-keeps id job h = ground (arith, h)

  none-waits :
      (jobs : Dict ℕ Job)
      → All (λ kv. waits_on w failed kv.1 ≡ false) (map_values (cancel_waiting w failed) jobs)
  unfolding map_values
  none-waits [] = tt
  none-waits ((id, job) ∷ jobs) = (waits_on-cancel_waiting job, none-waits jobs)

  none-waits_on :
      (id : ℕ) (jobs : Dict ℕ Job)
      → All (λ kv. waits_on w id kv.1 ≡ false) jobs
      → All (λ kv. waits_on w id kv.1 ≡ false) (map_values (cancel_waiting w failed) jobs)
  unfolding map_values
  none-waits_on id [] all = tt
  none-waits_on id ((k, job) ∷ jobs) (here, all) =
      (cancel_waiting-keeps id job here, none-waits_on id jobs all)

  pub Closed-round :
      (seen : List ℕ) (jobs : Dict ℕ Job)
      → Closed w seen jobs
      → Closed w (failed ∷ seen) (map_values (cancel_waiting w failed) jobs)
  unfolding contains
  Closed-round seen jobs closed id inside = elim (Bool-cases (failed == id)) [
    | inl same ↦
        subst
          (λ i. All (λ kv. waits_on w i kv.1 ≡ false) (map_values (cancel_waiting w failed) jobs))
          ((nat_eq.is_exact failed id).0 same) (none-waits jobs)
    | inr other ↦ none-waits_on id jobs (closed id (ground (arith, inside, other)))
  ]

  job_id-cancel_waiting : (job : Job) → (cancel_waiting w failed job).job_id ≡ job.job_id
  unfolding cancel_waiting
  job_id-cancel_waiting job = ground arith

  -- Who waits after a round waited before it.
  waiting_ids-round :
      (id parent : ℕ) (jobs : Dict ℕ Job)
      → contains id (waiting_ids w parent (map_values (cancel_waiting w failed) jobs)) ≡ true
      → contains id (waiting_ids w parent jobs) ≡ true
  unfolding waiting_ids map_values contains
  waiting_ids-round id parent [] inside = inside
  waiting_ids-round id parent ((k, job) ∷ jobs) inside = ground (
    arith,
    inside,
    job_id-cancel_waiting job,
    cancel_waiting-keeps parent job,
    waiting_ids-round id parent jobs,
  )

  Change-round :
      (seen : List ℕ) (job job' : Job)
      → contains failed seen ≡ true
      → (waits_on w failed job ≡ true → contains job.job_id seen ≡ true)
      → Change w seen (cancel_waiting w failed job) job'
      → Change w seen job job'
  unfolding cancel_waiting
  Change-round seen job job' inside listed c = elim (Bool-cases (waits_on w failed job)) [
    | inr stays ↦
        let same : cancel_waiting w failed job ≡ job = ground (arith, stays) in
        subst (λ j. Change w seen j job') same c
    | inl waits ↦
        let gone : cancel_waiting w failed job ≡ record job { status = JobStatus.cancelled } =
          ground (arith, waits) in
        cancelled waits (subst (λ j. Change w seen j job') gone c)
  ]
    where
      cancelled :
          waits_on w failed job ≡ true
          → Change w seen (record job { status = JobStatus.cancelled }) job'
          → Change w seen job job'
      cancelled waits (kept e) = dropped failed inside waits (listed waits) e
      cancelled waits (dropped p a b d e) = dropped failed inside waits (listed waits) e

  pub Changes-round :
      (seen : List ℕ) (jobs after : Dict ℕ Job)
      → contains failed seen ≡ true
      → ((id : ℕ) → contains id (waiting_ids w failed jobs) ≡ true → contains id seen ≡ true)
      → Changes w seen (map_values (cancel_waiting w failed) jobs) after
      → Changes w seen jobs after
  unfolding map_values waiting_ids contains
  Changes-round seen [] [] inside listed c = tt
  Changes-round seen [] (b ∷ bs) inside listed c = absurd c
  Changes-round seen ((k, job) ∷ jobs) [] inside listed c = absurd c
  Changes-round seen ((k, job) ∷ jobs) (b ∷ bs) inside listed (key, here, rest) = (
    key,
    Change-round seen job b.1 inside
        (λ waits. listed job.job_id (ground (arith, waits, nat_beq_refl job.job_id))) here,
    Changes-round seen jobs bs inside (λ id there. listed id (ground (arith, there))) rest,
  )

pub contains-push_all :
    (id : ℕ) (ids frontier : List ℕ)
    → contains id (push_all ids frontier) ≡ contains id ids || contains id frontier
unfolding push_all contains
contains-push_all id [] frontier = refl
contains-push_all id (j ∷ ids) frontier = ground (arith, contains-push_all id ids (j ∷ frontier))

pub Changes-refl : (w : ℕ) (seen : List ℕ) (jobs : Dict ℕ Job) → Changes w seen jobs jobs
Changes-refl w seen [] = tt
Changes-refl w seen (a ∷ jobs) = (refl, kept refl, Changes-refl w seen jobs)

-- A round adds to the frontier only what the failed job reaches.
pub Reach-round :
    (w failed : ℕ) (frontier : List ℕ) (jobs : Dict ℕ Job) (id : ℕ)
    → Reach w
        (map_values (cancel_waiting w failed) jobs)
        (push_all (waiting_ids w failed jobs) frontier)
        id
    → Reach w jobs (failed ∷ frontier) id
unfolding contains
Reach-round w failed frontier jobs _ (start id inside) =
    let ids = waiting_ids w failed jobs in
    elim (Bool-cases (contains id ids)) [
      | inl waits ↦ further id failed (start failed (ground (arith, nat_beq_refl failed))) waits
      | inr other ↦ start id (ground (arith, inside, other, contains-push_all id ids frontier))
    ]
Reach-round w failed frontier jobs _ (further id parent reached waits) =
    further id parent (Reach-round w failed frontier jobs parent reached)
      (waiting_ids-round w failed id parent jobs waits)

pub Reach-later :
    (w failed : ℕ) (frontier : List ℕ) (jobs : Dict ℕ Job) (id : ℕ)
    → Reach w jobs frontier id
    → Reach w jobs (failed ∷ frontier) id
unfolding contains
Reach-later w failed frontier jobs _ (start id inside) = start id (ground (arith, inside))
Reach-later w failed frontier jobs _ (further id parent reached waits) =
    further id parent (Reach-later w failed frontier jobs parent reached) waits
