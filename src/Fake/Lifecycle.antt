-- ===== src/Fake/Lifecycle.antt =====
-- What may become of a job: the relation between its values at two times, and between two states.
pub mod Mutation
pub mod Creation
use outlabs_taskq.Prelude.{
  ℕ, ◌≤◌, ◌≡◌, refl, Bool, true, false, Option, none, some, arith, ◌∙◌, nat_eq,
}
use outlabs_taskq.Dict.{get}
use outlabs_taskq.Effects.Keeps.{IsPreorder}
use outlabs_taskq.Protocol.{JobStatus, blocked, succeeded, failed, cancelled}
use outlabs_taskq.Fake.State.{Job, Client}

-- A final status stays, and no status returns to blocked.
abbrev pub may_follow : JobStatus → JobStatus → Bool
may_follow succeeded succeeded = true
may_follow succeeded _ = false
may_follow failed failed = true
may_follow failed _ = false
may_follow cancelled cancelled = true
may_follow cancelled _ = false
may_follow blocked _ = true
may_follow _ blocked = false
may_follow _ _ = true

may_follow_refl : (s : JobStatus) → may_follow s s ≡ true
may_follow_refl s = ground arith

may_follow_trans :
    (s t u : JobStatus) → may_follow s t ≡ true → may_follow t u ≡ true → may_follow s u ≡ true
may_follow_trans s t u p q = ground arith

-- `k` is the job `j` at a later time.
pub record Follows (j k : Job) : Type 0 where
  pub job_id : k.job_id ≡ j.job_id
  pub queue : k.command.queue ≡ j.command.queue
  pub job_type : k.command.job_type ≡ j.command.job_type
  pub idempotency_key : k.command.idempotency_key ≡ j.command.idempotency_key
  pub workflow_id : k.command.workflow_id ≡ j.command.workflow_id
  pub parent_job_id : k.parent_job_id ≡ j.parent_job_id
  pub status : may_follow j.status k.status ≡ true
  pub attempts : j.attempt_number ≤ k.attempt_number
  pub failures : j.failure_count ≤ k.failure_count

pub Follows-refl : (j : Job) → Follows j j
Follows-refl j = record {
  job_id = refl;
  queue = refl;
  job_type = refl;
  idempotency_key = refl;
  workflow_id = refl;
  parent_job_id = refl;
  status = may_follow_refl j.status;
  attempts = omega arith;
  failures = omega arith;
}

pub Follows-trans : (i j k : Job) → Follows i j → Follows j k → Follows i k
Follows-trans i j k p q = record {
  job_id = q.job_id ∙ p.job_id;
  queue = q.queue ∙ p.queue;
  job_type = q.job_type ∙ p.job_type;
  idempotency_key = q.idempotency_key ∙ p.idempotency_key;
  workflow_id = q.workflow_id ∙ p.workflow_id;
  parent_job_id = q.parent_job_id ∙ p.parent_job_id;
  status = may_follow_trans i.status j.status k.status p.status q.status;
  attempts = omega (arith, p.attempts, q.attempts);
  failures = omega (arith, p.failures, q.failures);
}

-- What is stored under one id, before and after: the same job, or none both times.
abbrev pub SameAt : Option Job → Option Job → Type 0
SameAt none none = Unit
SameAt (some j) (some k) = Follows j k
SameAt _ _ = ⊥

pub SameAt-refl : (o : Option Job) → SameAt o o
SameAt-refl none = tt
SameAt-refl (some j) = Follows-refl j

pub SameAt-trans : (o p q : Option Job) → SameAt o p → SameAt p q → SameAt o q
SameAt-trans none none none h k = tt
SameAt-trans (some i) (some j) (some k) h l = Follows-trans i j k h l
SameAt-trans none none (some k) h l = absurd l
SameAt-trans none (some j) q h l = absurd h
SameAt-trans (some i) none q h l = absurd h
SameAt-trans (some i) (some j) none h l = absurd l

-- No job comes or goes, and each one only moves on.
pub record Mutates (c d : Client) : Type 0 where
  pub world : d.world ≡ c.world
  pub drawn : c.drawn ≤ d.drawn
  pub jobs : (id : ℕ) → SameAt (get id c.jobs) (get id d.jobs)

pub Mutates-IsPreorder : IsPreorder Mutates
Mutates-IsPreorder = record {
  refl_at =
      λ c. record { world = refl; drawn = omega arith; jobs = λ id. SameAt-refl (get id c.jobs) };
  trans_at = λ c d e h k. record {
    world = k.world ∙ h.world;
    drawn = omega (arith, h.drawn, k.drawn);
    jobs = λ id. SameAt-trans _ _ _ (h.jobs id) (k.jobs id);
  };
}

-- As `SameAt`, but a job may come.
abbrev pub StaysAt : Option Job → Option Job → Type 0
StaysAt none q = Unit
StaysAt (some j) (some k) = Follows j k
StaysAt (some j) none = ⊥

pub StaysAt-of_same : (o p : Option Job) → SameAt o p → StaysAt o p
StaysAt-of_same none p h = tt
StaysAt-of_same (some j) none h = h
StaysAt-of_same (some j) (some k) h = h

StaysAt-trans : (o p q : Option Job) → StaysAt o p → StaysAt p q → StaysAt o q
StaysAt-trans none p q h k = tt
StaysAt-trans (some i) none q h k = absurd h
StaysAt-trans (some i) (some j) none h k = absurd k
StaysAt-trans (some i) (some j) (some k) h l = Follows-trans i j k h l

-- `uuid4` never repeats itself, and what it will return names no job yet.
pub record IsFresh (c : Client) : Type 0 where
  pub distinct : (m n : ℕ) → c.world.uuid4 m ≡ c.world.uuid4 n → m ≡ n
  pub unused : (n : ℕ) → c.drawn ≤ n → get (c.world.uuid4 n) c.jobs ≡ none

pub record Evolution (c d : Client) : Type 0 where
  pub fresh : IsFresh d
  pub jobs : (id : ℕ) → StaysAt (get id c.jobs) (get id d.jobs)

-- From a state with fresh ids, jobs only come and move on, and the ids stay fresh.
pub record Evolves (c d : Client) : Type 0 where
  pub from_fresh : IsFresh c → Evolution c d

pub StaysAt-refl : (o : Option Job) → StaysAt o o
StaysAt-refl none = tt
StaysAt-refl (some j) = Follows-refl j

pub Evolves-IsPreorder : IsPreorder Evolves
Evolves-IsPreorder = record {
  refl_at = λ c. record {
    from_fresh = λ f. record { fresh = f; jobs = λ id. StaysAt-refl (get id c.jobs) };
  };
  trans_at = λ c d e h k. record {
    from_fresh = λ f.
        let first = h.from_fresh f in
        let second = k.from_fresh first.fresh in
        record {
          fresh = second.fresh;
          jobs = λ id. StaysAt-trans _ _ _ (first.jobs id) (second.jobs id);
        };
  };
}

none_of_same : (o p : Option Job) → o ≡ none → SameAt o p → p ≡ none
none_of_same none none e h = refl
none_of_same none (some k) e h = absurd h
none_of_same (some j) p e h = cc

pub Mutates-IsFresh : {c d : Client} → Mutates c d → IsFresh c → IsFresh d
Mutates-IsFresh {c} {d} m f = record {
  distinct = rw m.world f.distinct;
  unused = λ n le.
      none_of_same _ _ (rw m.world (f.unused n (omega (arith, m.drawn))))
        (m.jobs (d.world.uuid4 n));
}

pub Mutates-Evolves : (c d : Client) → Mutates c d → Evolves c d
Mutates-Evolves c d m = record {
  from_fresh =
      λ f. record { fresh = Mutates-IsFresh m f; jobs = λ id. StaysAt-of_same _ _ (m.jobs id) };
}
