-- ===== src/Fake/Workflow/Cascade/Sweep.antt =====
-- What the loop of `_advance_fake_workflow` cancels, in testing.py.
use outlabs_taskq.Prelude.{
  ℕ, zero, suc, ◌+◌, ◌<◌, ◌≡◌, subst, ◌⊎◌, true, List, [], ◌∷◌, arith, inl, inr, Bool-cases, length,
  contains, nat_eq, ◌==◌, nat_beq_refl,
}
use outlabs_taskq.Dict.{Dict, map_values}
use outlabs_taskq.Fake.State.{Job}
use outlabs_taskq.Fake.Workflow.Cascade.{cancel_waiting, waiting_ids, push_all, cascade}
use outlabs_taskq.Fake.Workflow.Cascade.Bounds.{
  pending, pending-bound, pending-round, length-push_all,
}
use outlabs_taskq.Fake.Workflow.Cascade.Rounds.{
  start, Reach, Changes, Closed, Closed-round, Changes-round, contains-push_all, Changes-refl,
  Reach-round, Reach-later,
}

-- The end of the loop: what was seen holds the frontier and is reached, nothing waits on it any more,
-- and no other job changed.
pub record Swept (w : ℕ) (frontier old : List ℕ) (before after : Dict ℕ Job) : Type 0 where
  pub seen : List ℕ
  pub has_old : (id : ℕ) → contains id old ≡ true → contains id seen ≡ true
  pub has_frontier : (id : ℕ) → contains id frontier ≡ true → contains id seen ≡ true
  pub sound :
      (id : ℕ) → contains id seen ≡ true → (contains id old ≡ true) ⊎ Reach w before frontier id
  pub closed : Closed w seen after
  pub changes : Changes w seen before after

module _ (w failed : ℕ) (frontier old : List ℕ) (jobs after : Dict ℕ Job) where
  Swept-old :
      contains failed old ≡ true
      → Swept w frontier old jobs after
      → Swept w (failed ∷ frontier) old jobs after
  unfolding contains
  Swept-old inside s = record {
    seen = s.seen;
    has_old = s.has_old;
    has_frontier = λ id there. elim (Bool-cases (failed == id)) [
      | inl same ↦
          subst (λ i. contains i s.seen ≡ true) ((nat_eq.is_exact failed id).0 same)
            (s.has_old failed inside)
      | inr other ↦ s.has_frontier id (ground (arith, there, other))
    ];
    sound = λ id there. elim (s.sound id there) [
      | inl known ↦ inl known
      | inr reached ↦ inr (Reach-later w failed frontier jobs id reached)
    ];
    closed = s.closed;
    changes = s.changes;
  }

  Swept-round :
      Swept w
        (push_all (waiting_ids w failed jobs) frontier)
        (failed ∷ old)
        (map_values (cancel_waiting w failed) jobs)
        after
      → Swept w (failed ∷ frontier) old jobs after
  unfolding contains
  Swept-round s =
      let ids = waiting_ids w failed jobs in
      let here : contains failed s.seen ≡ true =
        s.has_old failed (ground (arith, nat_beq_refl failed)) in
      record {
        seen = s.seen;
        has_old = λ id there. s.has_old id (ground (arith, there));
        has_frontier = λ id there. elim (Bool-cases (failed == id)) [
          | inl same ↦
              subst (λ i. contains i s.seen ≡ true) ((nat_eq.is_exact failed id).0 same) here
          | inr other ↦
              s.has_frontier id (ground (arith, there, other, contains-push_all id ids frontier))
        ];
        sound = λ id there. elim (s.sound id there) [
          | inl known ↦ elim (Bool-cases (contains id old)) [
            | inl older ↦ inl older
            | inr new ↦ inr (start id (ground (arith, known, new)))
          ]
          | inr reached ↦ inr (Reach-round w failed frontier jobs id reached)
        ];
        closed = s.closed;
        changes =
            Changes-round w failed s.seen jobs after here
              (λ id waits.
                s.has_frontier id (ground (arith, waits, contains-push_all id ids frontier)))
              s.changes;
      }

cascade-Swept_from :
    (n w : ℕ) (frontier seen : List ℕ) (jobs : Dict ℕ Job)
    → length frontier + pending jobs < n
    → Closed w seen jobs
    → Swept w frontier seen jobs (cascade n w frontier seen jobs)
unfolding cascade
cascade-Swept_from zero w frontier seen jobs le closed = absurd (omega arith)
cascade-Swept_from (suc n) w [] seen jobs le closed = record {
  seen = seen;
  has_old = λ id there. there;
  has_frontier = λ id there. absurd cc;
  sound = λ id there. inl there;
  closed = closed;
  changes = Changes-refl w seen jobs;
}
cascade-Swept_from (suc n) w (failed ∷ frontier) seen jobs le closed =
    elim (Bool-cases (contains failed seen)) [
      | inl old ↦
          rw (cascade, old)
            (Swept-old w failed frontier seen jobs (cascade n w frontier seen jobs) old
              (cascade-Swept_from n w frontier seen jobs (omega (arith, le)) closed))
      | inr fresh ↦
          let ids = waiting_ids w failed jobs in
          let l = length-push_all ids frontier in
          let p = pending-round w failed jobs in
          rw (cascade, fresh)
            (Swept-round w failed frontier seen jobs _ (
              cascade-Swept_from n w (push_all ids frontier) (failed ∷ seen)
                (map_values (cancel_waiting w failed) jobs) (omega (arith, l, p, le))
                (Closed-round w failed seen jobs closed)))
    ]

-- With the fuel that `_advance_fake_workflow` gets here, two more than there are jobs, the loop ends.
-- It has seen the failed job and only ids that this reaches through pending members of the workflow;
-- in the end no pending member waits on any of them; and each job is as
-- it was, or waited on one of them, is cancelled with all else kept, and is one of them.
pub cascade-Swept :
    (w failed : ℕ) (jobs : Dict ℕ Job)
    → Swept w (failed ∷ []) [] jobs (cascade (length jobs + 2) w (failed ∷ []) [] jobs)
unfolding contains
cascade-Swept w failed jobs =
    cascade-Swept_from (length jobs + 2) w (failed ∷ []) [] jobs (omega (arith, pending-bound jobs))
      (λ id there. absurd cc)
