-- ===== src/Fake/Complete/Lifecycle.antt =====
-- `complete` ends its job and creates others.
use outlabs_taskq.Prelude.{
  ℕ, zero, suc, ◌≡◌, refl, String, Option, none, some, List, [], ◌∷◌, nat_eq,
}
use outlabs_taskq.Effects.{Error, for_each}
use outlabs_taskq.Effects.Keeps.{
  Keeps, Keeps-bind, Keeps-pure, Keeps-for_each, Same, Same-IsPreorder, after_read, after_step,
}
use outlabs_taskq.Protocol.{
  Json, succeeded, running, EnqueueCommand, Followup, HandlerResult, SettleCommand, SettleOutcome,
}
use outlabs_taskq.Fake.State.{Job, Workflow, Client}
use outlabs_taskq.Fake.Enqueue.Lifecycle.{store_job-Keeps, set_active-Keeps, log_enqueue-Keeps}
use outlabs_taskq.Fake.Settle.{finish}
use outlabs_taskq.Fake.Settle.Lifecycle.{finish-Mutates, Keeps-settle}
use outlabs_taskq.Dict.{get}
use outlabs_taskq.Fake.Complete.{
  Child, fresh, old, child_at, plan_child, plan_children, plan_complete, end_complete, raise_some,
  workflow_at, check_limit, join_workflow, store_child, complete_job, complete,
}
use outlabs_taskq.Fake.Lifecycle.{
  Evolves, Evolves-IsPreorder, Mutates, Mutates-Evolves, Follows-refl,
}
use outlabs_taskq.Fake.Lifecycle.Mutation.{mutation_rules, reading_rules}
use outlabs_taskq.Fake.Lifecycle.Creation.{Keeps-weaken, creation_rules}

child_at-reads :
    (job : Job) (command : EnqueueCommand) (o : Option ℕ) → Keeps Same (child_at job command o)
unfolding child_at
child_at-reads job command none = search reading_rules
child_at-reads job command (some id) = search reading_rules depth 9

plan_child-reads :
    (job : Job) (workflow : Option Workflow) (seen : List String) (f : Followup)
    → Keeps Same (plan_child job workflow seen f)
unfolding plan_child
plan_child-reads job workflow seen f = search (reading_rules, child_at-reads) depth 18

plan_children-reads :
    (job : Job) (workflow : Option Workflow) (seen : List String) (fs : List Followup)
    → Keeps Same (plan_children job workflow seen fs)
unfolding plan_children
plan_children-reads job workflow seen [] = search reading_rules
plan_children-reads job workflow seen (f ∷ fs) =
    let rest = plan_children-reads job workflow (f.step ∷ seen) fs in
    Keeps-bind Same-IsPreorder (plan_child job workflow seen f) _
      (plan_child-reads job workflow seen f)
      λ child.
        Keeps-bind Same-IsPreorder (plan_children job workflow (f.step ∷ seen) fs) _ rest
          λ more. Keeps-pure Same-IsPreorder (child ∷ more)

check_limit-reads : (w : Option Workflow) (n : ℕ) → Keeps Same (check_limit w n)
unfolding check_limit
check_limit-reads w zero = search reading_rules
check_limit-reads none (suc n) = search reading_rules
check_limit-reads (some w) (suc n) = search reading_rules

raise_some-reads : (o : Option Error) → Keeps Same (raise_some o)
raise_some-reads none = record { at = λ c. refl }
raise_some-reads (some e) = record { at = λ c. refl }

workflow_at-reads : (w : Option ℕ) → Keeps Same (workflow_at w)
workflow_at-reads none = search reading_rules
workflow_at-reads (some w) = search reading_rules

plan_complete-reads :
    (followups : List Followup) (policy : Option String) (job : Job)
    → Keeps Same (plan_complete followups policy job)
unfolding plan_complete
plan_complete-reads followups policy job =
    search
      (reading_rules, raise_some-reads, workflow_at-reads, plan_children-reads, check_limit-reads)
      depth 16

join_workflow-Keeps :
    (id : ℕ) (step : Option String) (w : Option ℕ) → Keeps Mutates (join_workflow id step w)
unfolding join_workflow
join_workflow-Keeps id step none = search mutation_rules
join_workflow-Keeps id step (some w) = search mutation_rules depth 9

store_child-Keeps : (job : Job) (child : Child) → Keeps Evolves (store_child job child)
unfolding store_child
store_child-Keeps job (fresh command) =
    search
      (creation_rules, store_job-Keeps, set_active-Keeps, join_workflow-Keeps, log_enqueue-Keeps)
      depth 12
store_child-Keeps job (old child) = Keeps-weaken _ (log_enqueue-Keeps child child.command _ _)

end_complete-Evolves :
    (id : ℕ) (result : Json) (followups : List Followup) (job : Job) (children : List Child)
    (c : Client)
    → get id c.jobs ≡ some job
    → job.status ≡ running
    → Evolves c (end_complete id result followups job children c).1
unfolding end_complete
end_complete-Evolves id result followups job children c e r =
    let intent = some (HandlerResult.complete result followups) in
    after_step Evolves-IsPreorder
      (finish id job SettleCommand.complete succeeded intent SettleOutcome.ok none none) _ c
      (Mutates-Evolves c _ (
        finish-Mutates c id job job e (Follows-refl job) r SettleCommand.complete succeeded refl
          intent SettleOutcome.ok none none))
      λ _.
        Keeps-bind Evolves-IsPreorder (for_each children (store_child job)) _
          (Keeps-for_each Evolves-IsPreorder children (store_child job) (store_child-Keeps job))
          λ _. Keeps-pure Evolves-IsPreorder _

complete_job-Evolves :
    (id : ℕ) (result : Json) (followups : List Followup) (policy : Option String) (job : Job)
    (c : Client)
    → get id c.jobs ≡ some job
    → job.status ≡ running
    → Evolves c (complete_job id result followups policy job c).1
unfolding complete_job
complete_job-Evolves id result followups policy job c e r =
    after_read Evolves-IsPreorder (plan_complete followups policy job) _ c
      (plan_complete-reads followups policy job)
      λ children. end_complete-Evolves id result followups job children c e r

pub complete-Keeps :
    (id attempt : ℕ) (worker : String) (result : Json) (followups : List Followup)
    (policy : Option String)
    → Keeps Evolves (complete id attempt worker result followups policy)
unfolding complete
complete-Keeps id attempt worker result followups policy =
    Keeps-settle Evolves-IsPreorder id attempt worker SettleCommand.complete _
      λ c job e r. complete_job-Evolves id result followups policy job c e r
