-- ===== src/Fake/Schedule/Fire/Lifecycle.antt =====
-- Claims and errors of schedules leave the jobs alone; a fired schedule only creates jobs.
use outlabs_taskq.Prelude.{
  ℕ, ◌+◌, refl, Bool, true, false, Option, none, some, List, [], ◌∷◌, ◌++◌, ◌==◌, length, nat_eq,
  arith, inl, inr, Bool-cases,
}
use outlabs_taskq.Effects.{modify, gets, pure}
use outlabs_taskq.Effects.Keeps.{Keeps, Keeps-bind, Keeps-pure, Keeps-gets, Keeps-if}
use outlabs_taskq.Protocol.{ScheduleActionResult}
use outlabs_taskq.Fake.State.{Schedule, Act, Reading}
use outlabs_taskq.Fake.Enqueue.{enqueue}
use outlabs_taskq.Fake.Enqueue.Lifecycle.{enqueue-Keeps}
use outlabs_taskq.Fake.Schedule.Fire.{
  put_back, holds_claim, ScheduleClaim, claim_one, claim_rounds, claim_schedules, is_claimable,
  occurrence_command, enqueue_occurrences, fire_now, fire_unless_expired, fire_at, fire_schedule,
  error_at, schedule_error,
}
use outlabs_taskq.Fake.Lifecycle.{Evolves, Evolves-IsPreorder, Mutates, Mutates-IsPreorder}
use outlabs_taskq.Fake.Lifecycle.Mutation.{mutation_rules, same_jobs}
use outlabs_taskq.Fake.Lifecycle.Creation.{creation_rules}

put_back-Keeps : (s : Schedule) → Keeps Mutates (modify (put_back s))
put_back-Keeps s = record { at = λ c. same_jobs c _ refl (omega arith) refl }

draw_claim-Keeps :
    (s : Schedule) → Keeps Mutates (modify (λ c. record (put_back s c) { drawn = c.drawn + 1 }))
draw_claim-Keeps s = record { at = λ c. same_jobs c _ refl (omega arith) refl }

claim_one-Keeps : (now lease : ℕ) (s : Schedule) → Keeps Mutates (claim_one now lease s)
unfolding claim_one
claim_one-Keeps now lease s = search (mutation_rules, draw_claim-Keeps) depth 12

-- What follows a claim: the limit is reached, or the loop goes on.
go_on-Keeps :
    (now lease limit : ℕ) (claims : List ScheduleClaim) (ss : List Schedule)
    → Keeps Mutates (claim_rounds now lease limit claims ss)
    → (b : Bool)
    → Keeps Mutates (elim b as (λ x. Act (List ScheduleClaim)) [
      | true ↦ pure claims
      | false ↦ claim_rounds now lease limit claims ss
    ])
go_on-Keeps now lease limit claims ss rest true = Keeps-pure Mutates-IsPreorder claims
go_on-Keeps now lease limit claims ss rest false = rest

claim_rounds-Keeps :
    (now lease limit : ℕ) (claims : List ScheduleClaim) (ss : List Schedule)
    → Keeps Mutates (claim_rounds now lease limit claims ss)
unfolding claim_rounds
claim_rounds-Keeps now lease limit claims [] = search mutation_rules
claim_rounds-Keeps now lease limit claims (s ∷ ss) = record {
  at = λ c. elim (Bool-cases (is_claimable now s)) [
    | inr pass ↦ rw (claim_rounds, pass) ((claim_rounds-Keeps now lease limit claims ss).at c)
    | inl take ↦
        rw (claim_rounds, take)
          ((Keeps-bind Mutates-IsPreorder (claim_one now lease s) _ (claim_one-Keeps now lease s)
              λ claim.
                go_on-Keeps now lease limit (claims ++ claim ∷ []) ss
                  (claim_rounds-Keeps now lease limit (claims ++ claim ∷ []) ss)
                  (length (claims ++ claim ∷ []) == limit)).at
            c)
  ];
}

pub claim_schedules-Keeps :
    (now : Reading) (limit lease : ℕ) → Keeps Mutates (claim_schedules now limit lease)
unfolding claim_schedules
claim_schedules-Keeps now limit lease = search (mutation_rules, claim_rounds-Keeps) depth 14

enqueue_occurrences-Keeps :
    (s : Schedule) (dues : List ℕ) → Keeps Evolves (enqueue_occurrences s dues)
unfolding enqueue_occurrences
enqueue_occurrences-Keeps s [] = search creation_rules
enqueue_occurrences-Keeps s (due ∷ dues) =
    let rest = enqueue_occurrences-Keeps s dues in
    Keeps-bind Evolves-IsPreorder (gets (λ c. c.world)) _ (Keeps-gets Evolves-IsPreorder _) λ world.
      Keeps-bind Evolves-IsPreorder (enqueue (occurrence_command world s due)) _
        (enqueue-Keeps (occurrence_command world s due))
        λ r.
          Keeps-bind Evolves-IsPreorder (enqueue_occurrences s dues) _ rest
            λ n. Keeps-pure Evolves-IsPreorder _

fire_now-Keeps :
    (token : ℕ) (dues : List ℕ) (next : ℕ) (s : Schedule)
    → Keeps Evolves (fire_now token dues next s)
unfolding fire_now
fire_now-Keeps token dues next s =
    search (creation_rules, enqueue_occurrences-Keeps, put_back-Keeps) depth 12

fire_unless_expired-Keeps :
    (now : Reading) (token : ℕ) (dues : List ℕ) (next : ℕ) (s : Schedule) (o : Option ℕ)
    → Keeps Evolves (fire_unless_expired now token dues next s o)
unfolding fire_unless_expired
fire_unless_expired-Keeps now token dues next s none = fire_now-Keeps token dues next s
fire_unless_expired-Keeps now token dues next s (some expires) =
    search (creation_rules, fire_now-Keeps, Keeps-if) depth 12

fire_at-Keeps :
    (now : Reading) (token version : ℕ) (dues : List ℕ) (next : ℕ) (s : Schedule)
    (o : Option ScheduleActionResult)
    → Keeps Evolves (fire_at now token version dues next s o)
unfolding fire_at
fire_at-Keeps now token version dues next s (some before) = search creation_rules
fire_at-Keeps now token version dues next s none =
    Keeps-if Evolves-IsPreorder (holds_claim token version s) _ _
      (fire_unless_expired-Keeps now token dues next s s.claim_expires_at)
      (Keeps-pure Evolves-IsPreorder _)

pub fire_schedule-Keeps :
    (now : Reading) (id token version : ℕ) (dues : List ℕ) (next : ℕ)
    → Keeps Evolves (fire_schedule now id token version dues next)
unfolding fire_schedule
fire_schedule-Keeps now id token version dues next = search (creation_rules, fire_at-Keeps) depth 14

error_at-Keeps :
    (now : Reading) (retry : ℕ) (s : Schedule) (b : Bool) → Keeps Mutates (error_at now retry s b)
unfolding error_at
error_at-Keeps now retry s false = search mutation_rules
error_at-Keeps now retry s true = search (mutation_rules, put_back-Keeps) depth 12

pub schedule_error-Keeps :
    (now : Reading) (id token version retry : ℕ)
    → Keeps Mutates (schedule_error now id token version retry)
unfolding schedule_error
schedule_error-Keeps now id token version retry = search (mutation_rules, error_at-Keeps) depth 14
