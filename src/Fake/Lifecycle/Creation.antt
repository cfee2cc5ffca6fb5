-- ===== src/Fake/Lifecycle/Creation.antt =====
-- The building blocks of the operations that create jobs.
use outlabs_taskq.Prelude.{ℕ, ◌+◌, ◌≤◌, ◌≡◌, false, inl, inr, arith, Bool-cases, nat_beq, nat_eq}
use outlabs_taskq.Dict.{get, put, delete, get-put, get-delete}
use outlabs_taskq.Effects.{Error}
use outlabs_taskq.Effects.Keeps.{Keeps, keeps_rules}
use outlabs_taskq.Fake.State.{
  Job, Client, Act, Reading, find_job, find_workflow, ensure_open, read_clock,
}
use outlabs_taskq.Fake.Lifecycle.Mutation.{
  Keeps-find_workflow, Keeps-look_up_job, Keeps-ensure_open, Keeps-read_clock,
}
use outlabs_taskq.Fake.Lifecycle.{
  IsFresh, Evolution, Evolves, Evolves-IsPreorder, Mutates, Mutates-Evolves, StaysAt-refl,
}

pub Keeps-weaken : {A : Type 0} (m : Act A) → Keeps Mutates m → Keeps Evolves m
Keeps-weaken m k = record { at = λ c. Mutates-Evolves c (m c).1 (k.at c) }

-- A job was put under the next id, and may have been taken out again.
module _ (c d : Client) (job : Job) (f : IsFresh c) (same : d.world ≡ c.world)
    (next : d.drawn ≡ c.drawn + 1) where
  abbrev id : ℕ
  id = c.world.uuid4 c.drawn

  unused_later : (n : ℕ) → d.drawn ≤ n → nat_beq id (c.world.uuid4 n) ≡ false
  unused_later n le = elim (Bool-cases (nat_beq id (c.world.uuid4 n))) [
    | inl e ↦ absurd (omega (arith, f.distinct c.drawn n ((nat_eq.is_exact _ _).0 e)))
    | inr e ↦ e
  ]

  pub put-Evolution : d.jobs ≡ put id job c.jobs → Evolution c d
  put-Evolution e = record {
    fresh = record {
      distinct = rw same f.distinct;
      unused = λ n le. rw (same, e, get-put, unused_later n le) (f.unused n (omega arith));
    };
    jobs = λ i.
        rw (e, get-put)
          (elim (Bool-cases (nat_beq id i)) [
            | inl here ↦
                let at : id ≡ i = (nat_eq.is_exact id i).0 here in
                rw (here, ← at, f.unused c.drawn (omega arith)) tt
            | inr other ↦ rw other (StaysAt-refl (get i c.jobs))
          ]);
  }

  pub rolled_back-Evolution : d.jobs ≡ delete id (put id job c.jobs) → Evolution c d
  rolled_back-Evolution e = record {
    fresh = record {
      distinct = rw same f.distinct;
      unused = λ n le.
          rw (same, e, get-delete, unused_later n le, get-put, unused_later n le)
            (f.unused n (omega arith));
    };
    jobs = λ i.
        rw (e, get-delete)
          (elim (Bool-cases (nat_beq id i)) [
            | inl here ↦
                let at : id ≡ i = (nat_eq.is_exact id i).0 here in
                rw (here, ← at, f.unused c.drawn (omega arith)) tt
            | inr other ↦ rw (other, get-put, other) (StaysAt-refl (get i c.jobs))
          ]);
  }

module _ (e : Error) (id : ℕ) where
  pub find_workflow-Evolves : Keeps Evolves (find_workflow e id)
  find_workflow-Evolves = Keeps-weaken (find_workflow e id) (Keeps-find_workflow e id)

  pub look_up_job-Evolves : Keeps Evolves (find_job e id)
  look_up_job-Evolves = Keeps-weaken (find_job e id) (Keeps-look_up_job e id)

pub ensure_open-Evolves : Keeps Evolves ensure_open
ensure_open-Evolves = Keeps-weaken ensure_open Keeps-ensure_open

pub read_clock-Evolves : (now : Reading) → Keeps Evolves (read_clock now)
read_clock-Evolves now = Keeps-weaken (read_clock now) (Keeps-read_clock now)

pub ruleset creation_rules = (
  keeps_rules, Evolves-IsPreorder, find_workflow-Evolves, look_up_job-Evolves, ensure_open-Evolves,
  read_clock-Evolves, Keeps-weaken,
)
