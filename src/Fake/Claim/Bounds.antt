-- ===== src/Fake/Claim/Bounds.antt =====
-- What `claim` of testing.py hands out.
use outlabs_taskq.Prelude.{
  ℕ, ◌≤◌, ◌<◌, ◌≡◌, refl, sym, ◌∙◌, Bool, true, false, leb, none, some, List, [], ◌∷◌, ◌++◌, arith,
  inl, inr, Bool-cases, Option-cases, length, length-append, nat_eq, contains, string_eq,
}
use outlabs_taskq.Dict.{get}
use outlabs_taskq.Effects.{Error, Result, ok, raised, crash, config, ◌>>=◌, pure, and_then}
use outlabs_taskq.Protocol.{ClaimedJob, ClaimResult}
use outlabs_taskq.Fake.State.{Job, Client, Act, find_job, Reading}
use outlabs_taskq.Fake.Claim.{
  ClaimRequest, is_eligible, take_job, claim_loop, claim_known, claim_result, claim,
}

-- At most `n` jobs, if any came.
record Bounded (n : ℕ) (r : Result (List ClaimedJob)) : Type 0 where
  at : (jobs : List ClaimedJob) → r ≡ ok jobs → length jobs ≤ n

Bounded-ok : (n : ℕ) (jobs : List ClaimedJob) → length jobs ≤ n → Bounded n (ok jobs)
Bounded-ok n jobs le = record { at = λ more e. rw⁻¹ (ok_injective jobs more e) le }
  where
    ok_injective : (js ks : List ClaimedJob) → ok js ≡ ok ks → js ≡ ks
    ok_injective js ks e = cc

Bounded-raised : (n : ℕ) (e : Error) → Bounded n (raised e)
Bounded-raised n e = record { at = λ jobs h. absurd cc }

go_on-Bounded :
    (r : ClaimRequest) (now : ℕ) (selected : List ClaimedJob) (ids : List ℕ) (b : Bool) (c : Client)
    → length selected ≤ r.batch
    → leb r.batch (length selected) ≡ b
    → (length selected < r.batch → Bounded r.batch (claim_loop r now selected ids c).0)
    → Bounded r.batch
        ((elim b as (λ x. Act (List ClaimedJob)) [
          | true ↦ pure selected
          | false ↦ claim_loop r now selected ids
        ])
          c).0
go_on-Bounded r now selected ids true c le e rest = Bounded-ok r.batch selected le
go_on-Bounded r now selected ids false c le e rest = rest (ground arith)

take-Bounded :
    (r : ClaimRequest) (now : ℕ) (selected : List ClaimedJob) (ids : List ℕ)
    (taken : Result ClaimedJob) (c : Client)
    → length selected < r.batch
    → ((more : List ClaimedJob)
        → length more < r.batch
        → Bounded r.batch (claim_loop r now more ids c).0)
    → Bounded r.batch
        (and_then taken
          (λ job.
            elim (leb r.batch (length (selected ++ job ∷ []))) as (λ x. Act (List ClaimedJob)) [
              | true ↦ pure (selected ++ job ∷ [])
              | false ↦ claim_loop r now (selected ++ job ∷ []) ids
            ])
          c).0
take-Bounded r now selected ids (raised e) c less rest = Bounded-raised r.batch e
take-Bounded r now selected ids (ok job) c less rest =
    go_on-Bounded r now (selected ++ job ∷ []) ids (leb r.batch (length (selected ++ job ∷ []))) c
      (rw length-append (ground arith)) refl (rest (selected ++ job ∷ []))

find_job-Bounded :
    (n id : ℕ) (body : Job → Act (List ClaimedJob)) (c : Client)
    → ((job : Job) → Bounded n (body job c).0)
    → Bounded n ((find_job crash id >>= body) c).0
find_job-Bounded n id body c h = elim (Option-cases (get id c.jobs)) [
  | inl gone ↦ rw gone (Bounded-raised n crash)
  | inr (job, there) ↦ rw there (h job)
]

claim_loop-Bounded :
    (r : ClaimRequest) (now : ℕ) (selected : List ClaimedJob) (ids : List ℕ) (c : Client)
    → length selected < r.batch
    → Bounded r.batch (claim_loop r now selected ids c).0
unfolding claim_loop
claim_loop-Bounded r now selected [] c less = Bounded-ok r.batch selected (omega arith)
claim_loop-Bounded r now selected (id ∷ ids) c less = find_job-Bounded r.batch id _ c λ job.
    elim (Bool-cases (is_eligible r now job)) [
      | inr pass ↦ rw pass (claim_loop-Bounded r now selected ids c less)
      | inl take ↦ rw take (
          take-Bounded r now selected ids (take_job r now id job c).0 (take_job r now id job c).1
            less (λ more le. claim_loop-Bounded r now more ids (take_job r now id job c).1 le))
    ]

pub same_jobs :
    (jobs : List ClaimedJob) (result : ClaimResult)
    → ok (claim_result jobs) ≡ ok result
    → jobs ≡ result.jobs
same_jobs jobs result e = ground arith

Bounded-result :
    (n : ℕ) (x : Result (List ClaimedJob)) (d : Client) (result : ClaimResult)
    → Bounded n x
    → (and_then x (λ jobs. pure (claim_result jobs)) d).0 ≡ ok result
    → length result.jobs ≤ n
Bounded-result n (ok jobs) d result le e = rw⁻¹ (same_jobs jobs result e) (le.at jobs refl)
Bounded-result n (raised x) d result le e = absurd cc

claim_known-Bounded :
    (now : Reading) (r : ClaimRequest) (b : Bool) (c : Client) (result : ClaimResult)
    → 1 ≤ r.batch
    → (claim_known now r b c).0 ≡ ok result
    → length result.jobs ≤ r.batch
unfolding claim_known
claim_known-Bounded now r false c result one e = ground arith
claim_known-Bounded none r true c result one e = absurd cc
claim_known-Bounded (some at) r true c result one e =
    Bounded-result r.batch (claim_loop r at [] c.order c).0 (claim_loop r at [] c.order c).1 result
      (claim_loop-Bounded r at [] c.order c (omega arith)) e

pub open_claim :
    (now : Reading) (r : ClaimRequest) (c : Client)
    → c.closed ≡ false
    → (claim now r c).0 ≡ (claim_known now r (contains r.queue c.known_queues) c).0
unfolding claim
open_claim now r c active = rw active refl

pub closed_claim :
    (now : Reading) (r : ClaimRequest) (c : Client)
    → c.closed ≡ true
    → (claim now r c).0 ≡ raised config
unfolding claim
closed_claim now r c shut = rw shut refl

-- A claim with a batch of at least one hands out at most that many jobs, whatever the state is.
pub claim-length :
    (now : Reading) (r : ClaimRequest) (c : Client) (result : ClaimResult)
    → 1 ≤ r.batch
    → (claim now r c).0 ≡ ok result
    → length result.jobs ≤ r.batch
claim-length now r c result one e = elim (Bool-cases c.closed) [
  | inl shut ↦ let refused = closed_claim now r c shut in absurd cc
  | inr active ↦
      claim_known-Bounded now r (contains r.queue c.known_queues) c result one
        (sym (open_claim now r c active) ∙ e)
]
