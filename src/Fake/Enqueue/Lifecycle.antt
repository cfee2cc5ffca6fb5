-- ===== src/Fake/Enqueue/Lifecycle.antt =====
-- `enqueue` and `enqueue_many` only create jobs and leave the others as they are.
use outlabs_taskq.Prelude.{
  ℕ, ◌≡◌, ◌⊎◌, inl, inr, refl, String, Option, none, some, List, [], ◌∷◌, arith, nat_eq, string_eq,
  pair_eq,
}
use outlabs_taskq.Dict.{delete}
use outlabs_taskq.Effects.{Result, ok, raised, and_then, modify}
use outlabs_taskq.Effects.Keeps.{Keeps, Keeps-bind, Keeps-pure}
use outlabs_taskq.Protocol.{
  JobStatus, queued, created, EnqueueCommand, EnqueueManyItem, EnqueueStatus,
}
use outlabs_taskq.Fake.State.{Job, Workflow, Client, add_queue, set_workflow}
use outlabs_taskq.Fake.Enqueue.{
  log_enqueue, record_enqueue, fresh_job, store_job, active_job, set_active, enqueue_new,
  enqueue_existing, enqueue_plain_at, enqueue_plain, live_parent, live_parents, admit_step,
  commit_member, enter_member, claim_key, admit_member, repeat_member, member_at,
  enqueue_workflow_member, enqueue_at, enqueue, item_command, enqueue_many,
}
use outlabs_taskq.Fake.Lifecycle.{Evolves, Evolves-IsPreorder, Mutates, Mutates-IsPreorder}
use outlabs_taskq.Fake.Lifecycle.Mutation.{mutation_rules, same_jobs}
use outlabs_taskq.Fake.Lifecycle.Creation.{
  Keeps-weaken, creation_rules, put-Evolution, rolled_back-Evolution,
}

pub log_enqueue-Keeps :
    (job : Job) (command : EnqueueCommand) (status : EnqueueStatus) (parent : Option ℕ)
    → Keeps Mutates (modify (log_enqueue job command status parent))
log_enqueue-Keeps job command status parent = record {
  at = λ c. same_jobs c _ refl (omega arith) refl;
}

record_enqueue-Keeps :
    (job : Job) (command : EnqueueCommand) (status : EnqueueStatus)
    → Keeps Mutates (record_enqueue job command status)
unfolding record_enqueue
record_enqueue-Keeps job command status = search (mutation_rules, log_enqueue-Keeps)

pub set_active-Keeps :
    (command : EnqueueCommand) (id : ℕ) → Keeps Mutates (modify (set_active command id))
set_active-Keeps command id = record {
  at = λ c. ground (arith, same_jobs c (set_active command id c));
}

add_queue-Keeps : (q : String) → Keeps Mutates (modify (add_queue q))
add_queue-Keeps q = record { at = λ c. ground (arith, same_jobs c (add_queue q c)) }

ruleset rest_rules = (mutation_rules, add_queue-Keeps, set_active-Keeps, record_enqueue-Keeps)

pub store_job-Keeps :
    (command : EnqueueCommand) (status : JobStatus) (parent : Option ℕ) (policy : Option String)
    → Keeps Evolves (store_job command status parent policy)
unfolding store_job
store_job-Keeps command status parent policy = record {
  at = λ c. record {
    from_fresh = λ f. put-Evolution c _ (fresh_job command status parent policy c) f refl refl refl;
  };
}

enqueue_new-Keeps : (command : EnqueueCommand) → Keeps Evolves (enqueue_new command)
unfolding enqueue_new
enqueue_new-Keeps command =
    Keeps-bind Evolves-IsPreorder (store_job command queued none none) _
      (store_job-Keeps command queued none none) (λ job. Keeps-weaken _ (search rest_rules depth 9))

-- The jobs stay, or the given one is taken out.
pub record Shape (id : ℕ) (c d : Client) : Type 0 where
  pub world : d.world ≡ c.world
  pub drawn : d.drawn ≡ c.drawn
  pub jobs : (d.jobs ≡ c.jobs) ⊎ (d.jobs ≡ delete id c.jobs)

claim_key-Shape :
    (w : ℕ) (step_key : String) (workflow : Workflow) (command : EnqueueCommand) (job : Job)
    (o : Option ℕ) (c : Client)
    → Shape job.job_id c (claim_key w step_key workflow command job o c).1
unfolding claim_key
claim_key-Shape w step_key workflow command job o c = ground arith

then_record-Shape :
    (r : Result Unit) (job : Job) (command : EnqueueCommand) (id : ℕ) (c d : Client)
    → Shape id c d
    → Shape id c (and_then r (λ _. record_enqueue job command created) d).1
unfolding record_enqueue
then_record-Shape (ok u) job command id c d s = record {
  world = s.world;
  drawn = s.drawn;
  jobs = s.jobs;
}
then_record-Shape (raised e) job command id c d s = s

Shape-add_queue : (q : String) (id : ℕ) (c d : Client) → Shape id (add_queue q c) d → Shape id c d
Shape-add_queue q id c d s = ground arith

Shape-set_workflow :
    (w : ℕ) (workflow : Workflow) (id : ℕ) (c d : Client)
    → Shape id (set_workflow w workflow c) d
    → Shape id c d
Shape-set_workflow w workflow id c d s = record { world = s.world; drawn = s.drawn; jobs = s.jobs }

enter_member-Shape :
    (w : ℕ) (step_key : String) (admitted : Workflow) (command : EnqueueCommand) (job : Job)
    (c : Client)
    → Shape job.job_id c (enter_member w step_key admitted command job c).1
unfolding enter_member
enter_member-Shape w step_key admitted command job c =
    let entered = add_queue command.queue (set_workflow w admitted c) in
    let (r, d) = claim_key w step_key admitted command job (active_job command entered) entered in
    then_record-Shape r job command job.job_id c d (
      Shape-set_workflow w admitted job.job_id c d (
        Shape-add_queue command.queue job.job_id (set_workflow w admitted c) d
          (claim_key-Shape w step_key admitted command job (active_job command entered) entered)))

commit_member-Keeps :
    (w : ℕ) (step_key : String) (workflow : Workflow) (command : EnqueueCommand)
    (status : JobStatus)
    → Keeps Evolves (commit_member w step_key workflow command status)
unfolding commit_member store_job
commit_member-Keeps w step_key workflow command status = record { at = at }
  where
    at : (c : Client) → Evolves c (commit_member w step_key workflow command status c).1
    at c =
        let policy = workflow.continuation_policy_hash in
        let job = fresh_job command status none policy c in
        let stored = (store_job command status none policy c).1 in
        let s =
          enter_member-Shape w step_key (admit_step step_key job.job_id workflow) command job
            stored in
        record {
          from_fresh = λ f. elim s.jobs [
            | inl kept ↦ put-Evolution c _ job f s.world s.drawn kept
            | inr taken ↦ rolled_back-Evolution c _ job f s.world s.drawn taken
          ];
        }

live_parent-Keeps : (w id : ℕ) → Keeps Mutates (live_parent w id)
unfolding live_parent
live_parent-Keeps w id = search mutation_rules depth 9

live_parents-Keeps : (w : ℕ) (ids : List ℕ) → Keeps Mutates (live_parents w ids)
unfolding live_parents
live_parents-Keeps w [] = search mutation_rules
live_parents-Keeps w (id ∷ ids) =
    let rest = live_parents-Keeps w ids in
    Keeps-bind Mutates-IsPreorder (live_parent w id) _ (live_parent-Keeps w id) λ job.
      Keeps-bind Mutates-IsPreorder (live_parents w ids) _ rest
        λ jobs. Keeps-pure Mutates-IsPreorder (job ∷ jobs)

admit_member-Keeps :
    (w : ℕ) (step_key : String) (workflow : Workflow) (command : EnqueueCommand)
    → Keeps Evolves (admit_member w step_key workflow command)
unfolding admit_member
admit_member-Keeps w step_key workflow command =
    search (creation_rules, live_parents-Keeps, commit_member-Keeps) depth 12

enqueue_existing-Keeps :
    (command : EnqueueCommand) (id : ℕ) → Keeps Mutates (enqueue_existing command id)
unfolding enqueue_existing
enqueue_existing-Keeps command id = search rest_rules

repeat_member-Keeps : (command : EnqueueCommand) (id : ℕ) → Keeps Mutates (repeat_member command id)
unfolding repeat_member
repeat_member-Keeps command id = search rest_rules depth 9

member_at-Keeps :
    (w : ℕ) (step_key : String) (workflow : Workflow) (command : EnqueueCommand) (o : Option ℕ)
    → Keeps Evolves (member_at w step_key workflow command o)
unfolding member_at
member_at-Keeps w step_key workflow command none = admit_member-Keeps w step_key workflow command
member_at-Keeps w step_key workflow command (some id) =
    Keeps-weaken _ (repeat_member-Keeps command id)

enqueue_workflow_member-Keeps :
    (w : ℕ) (command : EnqueueCommand) → Keeps Evolves (enqueue_workflow_member w command)
unfolding enqueue_workflow_member
enqueue_workflow_member-Keeps w command = search (creation_rules, member_at-Keeps) depth 12

enqueue_plain_at-Keeps :
    (command : EnqueueCommand) (o : Option ℕ) → Keeps Evolves (enqueue_plain_at command o)
unfolding enqueue_plain_at
enqueue_plain_at-Keeps command none = enqueue_new-Keeps command
enqueue_plain_at-Keeps command (some id) = Keeps-weaken _ (enqueue_existing-Keeps command id)

enqueue_plain-Keeps : (command : EnqueueCommand) → Keeps Evolves (enqueue_plain command)
unfolding enqueue_plain
enqueue_plain-Keeps command = record {
  at = λ c. (enqueue_plain_at-Keeps command (active_job command c)).at c;
}

enqueue_at-Keeps : (command : EnqueueCommand) (o : Option ℕ) → Keeps Evolves (enqueue_at command o)
unfolding enqueue_at
enqueue_at-Keeps command none = enqueue_plain-Keeps command
enqueue_at-Keeps command (some w) = enqueue_workflow_member-Keeps w command

pub enqueue-Keeps : (command : EnqueueCommand) → Keeps Evolves (enqueue command)
unfolding enqueue
enqueue-Keeps command = search (creation_rules, enqueue_at-Keeps)

pub enqueue_many-Keeps :
    (queue : String) (items : List EnqueueManyItem) → Keeps Evolves (enqueue_many queue items)
unfolding enqueue_many
enqueue_many-Keeps queue [] = search creation_rules
enqueue_many-Keeps queue (item ∷ items) =
    let rest = enqueue_many-Keeps queue items in
    Keeps-bind Evolves-IsPreorder (enqueue (item_command queue item)) _
      (enqueue-Keeps (item_command queue item))
      λ r.
        Keeps-bind Evolves-IsPreorder (enqueue_many queue items) _ rest
          λ rs. Keeps-pure Evolves-IsPreorder (r ∷ rs)
