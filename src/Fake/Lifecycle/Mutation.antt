-- ===== src/Fake/Lifecycle/Mutation.antt =====
-- The building blocks of the operations that only move jobs on.
use outlabs_taskq.Prelude.{
  ℕ, ◌≤◌, ◌≡◌, refl, true, some, arith, inl, inr, Bool-cases, Option-cases, nat_beq, nat_eq,
  string_eq, pair_eq, option_eq,
}
use outlabs_taskq.Dict.{get, put, get-put}
use outlabs_taskq.Effects.{Error, config, modify, ok, raised, Result, and_then, ◌>>=◌}
use outlabs_taskq.Effects.Keeps.{
  Same, Same-IsPreorder, Keeps, keeps_rules, Keeps-require, Keeps-raise_if,
}
use outlabs_taskq.Protocol.{JobStatus}
use outlabs_taskq.Fake.State.{
  Job, Workflow, Client, Act, find_job, find_workflow, set_job, set_workflow, ensure_open,
  read_clock, Reading,
}
use outlabs_taskq.Fake.Lifecycle.{
  may_follow, Follows, SameAt, SameAt-refl, Mutates, Mutates-IsPreorder,
}

-- A change that leaves the jobs alone.
pub same_jobs :
    (c d : Client) → d.world ≡ c.world → c.drawn ≤ d.drawn → d.jobs ≡ c.jobs → Mutates c d
same_jobs c d w n e = record {
  world = w;
  drawn = n;
  jobs = λ id. rw e (SameAt-refl (get id c.jobs));
}

pub Follows-status :
    (j : Job) (s : JobStatus) → may_follow j.status s ≡ true → Follows j (record j { status = s })
Follows-status j s h = record {
  job_id = refl;
  queue = refl;
  job_type = refl;
  idempotency_key = refl;
  workflow_id = refl;
  parent_job_id = refl;
  status = h;
  attempts = omega arith;
  failures = omega arith;
}

pub set_job-Mutates :
    (c : Client) (id : ℕ) (j k : Job)
    → get id c.jobs ≡ some j
    → Follows j k
    → Mutates c (set_job id k c)
set_job-Mutates c id j k e f = record { world = refl; drawn = omega arith; jobs = at }
  where
    at : (i : ℕ) → SameAt (get i c.jobs) (get i (put id k c.jobs))
    at i = elim (Bool-cases (nat_beq id i)) [
      | inl same ↦
          let here : id ≡ i = (nat_eq.is_exact id i).0 same in rw (get-put, same, ← here, e) f
      | inr other ↦ rw (get-put, other) (SameAt-refl (get i c.jobs))
    ]

-- `job = self._jobs[id]`, and a body that may use what was found.
pub Keeps-find_job :
    {A : Type 0} (e : Error) (id : ℕ) (body : Job → Act A)
    → ((c : Client) (job : Job) → get id c.jobs ≡ some job → Mutates c (body job c).1)
    → Keeps Mutates (find_job e id >>= body)
Keeps-find_job e id body h = record { at = at }
  where
    at : (c : Client) → Mutates c ((find_job e id >>= body) c).1
    at c = elim (Option-cases (get id c.jobs)) [
      | inl none_there ↦ rw none_there (Mutates-IsPreorder.refl_at c)
      | inr (job, there) ↦ rw there (h c job there)
    ]

pub Keeps-set_workflow : (id : ℕ) (w : Workflow) → Keeps Mutates (modify (set_workflow id w))
Keeps-set_workflow id w = record {
  at = λ c. same_jobs c (set_workflow id w c) refl (omega arith) refl;
}

pub Keeps-find_workflow : (e : Error) (id : ℕ) → Keeps Mutates (find_workflow e id)
Keeps-find_workflow e id = record {
  at = λ c. (Keeps-require Mutates-IsPreorder e (get id c.workflows)).at c;
}

pub Keeps-ensure_open : Keeps Mutates ensure_open
Keeps-ensure_open = record { at = λ c. (Keeps-raise_if Mutates-IsPreorder c.closed config).at c }

pub Keeps-read_clock : (now : Reading) → Keeps Mutates (read_clock now)
Keeps-read_clock now = Keeps-require Mutates-IsPreorder config now

pub Keeps-look_up_job : (e : Error) (id : ℕ) → Keeps Mutates (find_job e id)
Keeps-look_up_job e id = record {
  at = λ c. (Keeps-require Mutates-IsPreorder e (get id c.jobs)).at c;
}

module _ {A B : Type 0} where
  pub result_keeps :
      (r : Result A) (f : A → Act B) (c : Client)
      → ((a : A) → Mutates c (f a c).1)
      → Mutates c (and_then r f c).1
  result_keeps (ok a) f c h = h a
  result_keeps (raised e) f c h = Mutates-IsPreorder.refl_at c

module _ (e : Error) (id : ℕ) where
  pub find_job-reads : Keeps Same (find_job e id)
  find_job-reads = record { at = λ c. (Keeps-require Same-IsPreorder e (get id c.jobs)).at c }

  pub find_workflow-reads : Keeps Same (find_workflow e id)
  find_workflow-reads = record {
    at = λ c. (Keeps-require Same-IsPreorder e (get id c.workflows)).at c;
  }

pub ensure_open-reads : Keeps Same ensure_open
ensure_open-reads = record { at = λ c. (Keeps-raise_if Same-IsPreorder c.closed config).at c }

pub ruleset reading_rules =
    (keeps_rules, Same-IsPreorder, find_job-reads, find_workflow-reads, ensure_open-reads)

pub ruleset mutation_rules = (
  keeps_rules, Mutates-IsPreorder, Keeps-set_workflow, Keeps-find_workflow, Keeps-ensure_open,
  Keeps-look_up_job, Keeps-read_clock,
)
