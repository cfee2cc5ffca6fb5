-- ===== src/Fake/Workflow/Lifecycle.antt =====
-- The workflow methods only move jobs on.
use outlabs_taskq.Prelude.{
  ℕ, zero, suc, ◌+◌, ◌≡◌, refl, Bool, true, false, ◌||◌, Option, none, some, String, List, [], ◌∷◌,
  arith, inl, inr, Bool-cases, Option-cases, nat_eq, string_eq, option_eq, contains, length,
}
use outlabs_taskq.Dict.{Dict, get, keys, get-map_values, map_values}
use outlabs_taskq.Effects.{crash, modify, when, ◌>>=◌}
use outlabs_taskq.Effects.Keeps.{Keeps, Keeps-bind, Keeps-pure, Keeps-for_each, Same, after_read}
use outlabs_taskq.Protocol.{JobStatus, queued, is_blocked, is_queued}
use outlabs_taskq.Fake.State.{Job, Workflow, Client, find_job, set_job}
use outlabs_taskq.Fake.Workflow.{
  CreateRequest, store_workflow, create_at, refresh_sealed, cancel_pending, request_cancel,
  cancel_at, unblock, unblock_all, cascade_all, advance_at, create_workflow, statuses_of,
  refresh_workflow, seal_workflow, cancel_workflow, all_succeeded, advance_workflow,
}
use outlabs_taskq.Fake.Workflow.Cascade.{cascade, cancel_waiting, waits_on, dependencies}
use outlabs_taskq.Fake.Lifecycle.{
  may_follow, Follows, Follows-refl, SameAt, SameAt-refl, Mutates, Mutates-IsPreorder, SameAt-trans,
}
use outlabs_taskq.Fake.Lifecycle.Mutation.{
  same_jobs, Follows-status, set_job-Mutates, Keeps-find_job, mutation_rules, Keeps-look_up_job,
}

statuses_of-Keeps : (ids : List ℕ) → Keeps Mutates (statuses_of ids)
unfolding statuses_of
statuses_of-Keeps [] = search mutation_rules depth 12
statuses_of-Keeps (id ∷ ids) =
    let rest = statuses_of-Keeps ids in
    Keeps-bind Mutates-IsPreorder (find_job crash id) _ (Keeps-look_up_job crash id) (λ job.
      Keeps-bind Mutates-IsPreorder (statuses_of ids) _ rest
        (λ ss. Keeps-pure Mutates-IsPreorder (job.status ∷ ss)))

refresh_sealed-Keeps : (id : ℕ) (w : Workflow) (b : Bool) → Keeps Mutates (refresh_sealed id w b)
unfolding refresh_sealed
refresh_sealed-Keeps id w false = search mutation_rules depth 12
refresh_sealed-Keeps id w true = search (mutation_rules, statuses_of-Keeps) depth 12

refresh_workflow-Keeps : (id : ℕ) → Keeps Mutates (refresh_workflow id)
unfolding refresh_workflow
refresh_workflow-Keeps id = search (mutation_rules, refresh_sealed-Keeps) depth 12

pub seal_workflow-Keeps : (id : ℕ) → Keeps Mutates (seal_workflow id)
unfolding seal_workflow
seal_workflow-Keeps id = search (mutation_rules, refresh_workflow-Keeps) depth 12

cancel_pending-Keeps : (id : ℕ) → Keeps Mutates (cancel_pending id)
unfolding cancel_pending
cancel_pending-Keeps id = Keeps-find_job crash id _ body
  where
    body :
        (c : Client) (job : Job)
        → get id c.jobs ≡ some job
        → Mutates c
            (when
              (is_blocked job.status || is_queued job.status)
              (modify (set_job id (record job { status = JobStatus.cancelled })))
              c).1
    body c job e = elim (Bool-cases (is_blocked job.status || is_queued job.status)) [
      | inl pending ↦
          rw pending
            (set_job-Mutates c id job _ e (Follows-status job JobStatus.cancelled (ground arith)))
      | inr other ↦ rw other (Mutates-IsPreorder.refl_at c)
    ]

request_cancel-Keeps : (id : ℕ) (w : Workflow) → Keeps Mutates (request_cancel id w)
unfolding request_cancel
request_cancel-Keeps id w =
    search (mutation_rules, cancel_pending-Keeps, refresh_workflow-Keeps) depth 12

cancel_at-Keeps : (id : ℕ) (w : Workflow) (a b : Bool) → Keeps Mutates (cancel_at id w a b)
unfolding cancel_at
cancel_at-Keeps id w false b = search mutation_rules depth 12
cancel_at-Keeps id w true true = search mutation_rules depth 12
cancel_at-Keeps id w true false = search (mutation_rules, request_cancel-Keeps) depth 12

pub cancel_workflow-Keeps : (id : ℕ) → Keeps Mutates (cancel_workflow id)
unfolding cancel_workflow
cancel_workflow-Keeps id = search (mutation_rules, cancel_at-Keeps) depth 12

store_workflow-Keeps :
    (r : CreateRequest) (queues : List String) → Keeps Mutates (store_workflow r queues)
unfolding store_workflow
store_workflow-Keeps r queues = record { at = λ c. same_jobs c _ refl (omega arith) refl }

create_at-Keeps :
    (r : CreateRequest) (queues : List String) (o : Option ℕ) → Keeps Mutates (create_at r queues o)
unfolding create_at
create_at-Keeps r queues none = search (mutation_rules, store_workflow-Keeps) depth 12
create_at-Keeps r queues (some id) = search mutation_rules depth 12

pub create_workflow-Keeps : (r : CreateRequest) → Keeps Mutates (create_workflow r)
unfolding create_workflow
create_workflow-Keeps r = search (mutation_rules, create_at-Keeps) depth 12

-- Reading leaves the state as it is.
all_succeeded-reads : (ids : List ℕ) → Keeps Same (all_succeeded ids)
unfolding all_succeeded
all_succeeded-reads [] = record { at = λ c. refl }
all_succeeded-reads (id ∷ ids) = record { at = λ c. ground (arith, (all_succeeded-reads ids).at c) }

module _ (id : ℕ) (c : Client) (job : Job) (e : get id c.jobs ≡ some job) where
  set_queued-Mutates :
      (done : Bool)
      → is_blocked job.status ≡ true
      → Mutates c (when done (modify (set_job id (record job { status = queued }))) c).1
  set_queued-Mutates true b =
      set_job-Mutates c id job _ e (Follows-status job queued (ground arith))
  set_queued-Mutates false b = Mutates-IsPreorder.refl_at c

  unblock_found :
      (b : Bool)
      → (b ≡ true → is_blocked job.status ≡ true)
      → Mutates c
          (when b
            (all_succeeded (dependencies job.command) >>= λ done.
              when done (modify (set_job id (record job { status = queued }))))
            c).1
  unblock_found false h = Mutates-IsPreorder.refl_at c
  unblock_found true h =
      after_read Mutates-IsPreorder (all_succeeded (dependencies job.command)) _ c
        (all_succeeded-reads (dependencies job.command)) (λ done. set_queued-Mutates done (h refl))

unblock-Keeps : (w parent id : ℕ) → Keeps Mutates (unblock w parent id)
unfolding unblock
unblock-Keeps w parent id =
    Keeps-find_job crash id _ λ c job e. unblock_found id c job e _ (λ h. ground arith)

waits_on-pending :
    (w failed : ℕ) (j : Job)
    → waits_on w failed j ≡ true
    → may_follow j.status JobStatus.cancelled ≡ true
unfolding waits_on
waits_on-pending w failed j h = ground arith

cancel_waiting-Follows : (w failed : ℕ) (j : Job) → Follows j (cancel_waiting w failed j)
unfolding cancel_waiting
cancel_waiting-Follows w failed j = elim (Bool-cases (waits_on w failed j)) [
  | inl e ↦ rw e (Follows-status j JobStatus.cancelled (waits_on-pending w failed j e))
  | inr e ↦ rw e (Follows-refl j)
]

map_values-SameAt :
    (f : Job → Job)
    → ((j : Job) → Follows j (f j))
    → (id : ℕ) (jobs : Dict ℕ Job) → SameAt (get id jobs) (get id (map_values f jobs))
map_values-SameAt f h id jobs =
    rw get-map_values
      (elim (Option-cases (get id jobs)) [ inl e ↦ rw e tt | inr (j, e) ↦ rw e (h j) ])

cascade-SameAt :
    (fuel w : ℕ) (frontier seen : List ℕ) (jobs : Dict ℕ Job) (id : ℕ)
    → SameAt (get id jobs) (get id (cascade fuel w frontier seen jobs))
unfolding cascade
cascade-SameAt zero w frontier seen jobs id = SameAt-refl (get id jobs)
cascade-SameAt (suc fuel) w [] seen jobs id = SameAt-refl (get id jobs)
cascade-SameAt (suc fuel) w (x ∷ frontier) seen jobs id = elim (Bool-cases (contains x seen)) [
  | inl e ↦ rw (e, cascade) (cascade-SameAt fuel w frontier seen jobs id)
  | inr e ↦
      rw (e, cascade)
        (SameAt-trans _ _ _
          (map_values-SameAt (cancel_waiting w x) (cancel_waiting-Follows w x) id jobs)
          (cascade-SameAt fuel w _ (x ∷ seen) _ id))
]

unblock_all-Keeps : (w parent : ℕ) → Keeps Mutates (unblock_all w parent)
unfolding unblock_all
unblock_all-Keeps w parent = record {
  at = λ c.
      (Keeps-for_each Mutates-IsPreorder (keys c.jobs) (unblock w parent)
          (λ id. unblock-Keeps w parent id)).at
        c;
}

cascade_all-Keeps : (w parent : ℕ) → Keeps Mutates (modify (cascade_all w parent))
unfolding cascade_all
cascade_all-Keeps w parent = record {
  at = λ c. record {
    world = refl;
    drawn = omega arith;
    jobs = λ id. cascade-SameAt (length c.jobs + 2) w (parent ∷ []) [] c.jobs id;
  };
}

advance_at-Keeps : (w parent : ℕ) (b : Bool) → Keeps Mutates (advance_at w parent b)
unfolding advance_at
advance_at-Keeps w parent true = unblock_all-Keeps w parent
advance_at-Keeps w parent false = cascade_all-Keeps w parent

pub advance_workflow-Keeps :
    (w parent : ℕ) (s : JobStatus) → Keeps Mutates (advance_workflow w parent s)
unfolding advance_workflow
advance_workflow-Keeps w parent s =
    search (mutation_rules, advance_at-Keeps, refresh_workflow-Keeps) depth 12
