-- ===== src/Fake/Claim/Fit.antt =====
-- Which jobs `claim` of testing.py hands out.
use outlabs_taskq.Prelude.{
  ℕ, ◌≡◌, refl, sym, ◌∙◌, Bool, true, false, ◌==◌, leb, none, some, List, [], ◌∷◌, ◌++◌, arith, inl,
  inr, Bool-cases, Option-cases, length, nat_eq, string_eq, contains, All,
}
use outlabs_taskq.Dict.{get}
use outlabs_taskq.Effects.{Error, Result, ok, raised, crash, pure, and_then, ◌>>=◌}
use outlabs_taskq.Protocol.{ClaimState, ClaimedJob, ClaimResult}
use outlabs_taskq.Fake.State.{Job, Client, Act, find_job, Reading}
use outlabs_taskq.Fake.Claim.{
  ClaimRequest, is_eligible, deliver, take_job, claim_loop, claim_known, claim_result, claim,
}
use outlabs_taskq.Fake.Claim.Bounds.{open_claim, closed_claim, same_jobs}

-- A claimed job is of the queue that was asked for.
abbrev pub InQueue : ClaimRequest → ClaimedJob → Type 0
InQueue r job = job.queue ≡ r.queue

record Fits (r : ClaimRequest) (x : Result (List ClaimedJob)) : Type 0 where
  at : (jobs : List ClaimedJob) → x ≡ ok jobs → All (InQueue r) jobs

Fits-ok : (r : ClaimRequest) (jobs : List ClaimedJob) → All (InQueue r) jobs → Fits r (ok jobs)
Fits-ok r jobs all = record { at = λ more e. rw⁻¹ (ok_injective jobs more e) all }
  where
    ok_injective : (js ks : List ClaimedJob) → ok js ≡ ok ks → js ≡ ks
    ok_injective js ks e = cc

Fits-raised : (r : ClaimRequest) (e : Error) → Fits r (raised e)
Fits-raised r e = record { at = λ jobs h. absurd cc }

All-append :
    (r : ClaimRequest) (xs : List ClaimedJob) (job : ClaimedJob)
    → All (InQueue r) xs
    → InQueue r job
    → All (InQueue r) (xs ++ job ∷ [])
All-append r [] job all fit = (fit, tt)
All-append r (x ∷ xs) job all fit = (all.0, All-append r xs job all.1 fit)

go_on-Fits :
    (r : ClaimRequest) (now : ℕ) (selected : List ClaimedJob) (ids : List ℕ) (b : Bool) (c : Client)
    → All (InQueue r) selected
    → Fits r (claim_loop r now selected ids c).0
    → Fits r
        ((elim b as (λ x. Act (List ClaimedJob)) [
          | true ↦ pure selected
          | false ↦ claim_loop r now selected ids
        ])
          c).0
go_on-Fits r now selected ids true c all rest = Fits-ok r selected all
go_on-Fits r now selected ids false c all rest = rest

take-Fits :
    (r : ClaimRequest) (now : ℕ) (selected : List ClaimedJob) (ids : List ℕ)
    (taken : Result ClaimedJob) (c : Client)
    → All (InQueue r) selected
    → ((job : ClaimedJob) → taken ≡ ok job → InQueue r job)
    → ((more : List ClaimedJob) → All (InQueue r) more → Fits r (claim_loop r now more ids c).0)
    → Fits r
        (and_then taken
          (λ job.
            elim (leb r.batch (length (selected ++ job ∷ []))) as (λ x. Act (List ClaimedJob)) [
              | true ↦ pure (selected ++ job ∷ [])
              | false ↦ claim_loop r now (selected ++ job ∷ []) ids
            ])
          c).0
take-Fits r now selected ids (raised e) c all fit rest = Fits-raised r e
take-Fits r now selected ids (ok job) c all fit rest =
    let more = All-append r selected job all (fit job refl) in
    go_on-Fits r now (selected ++ job ∷ []) ids (leb r.batch (length (selected ++ job ∷ []))) c more
      (rest (selected ++ job ∷ []) more)

taken-InQueue :
    (r : ClaimRequest) (now id : ℕ) (job : Job) (c : Client) (taken : ClaimedJob)
    → is_eligible r now job ≡ true
    → (take_job r now id job c).0 ≡ ok taken
    → InQueue r taken
unfolding is_eligible take_job deliver
taken-InQueue r now id job c taken fit e =
    let same : (job.command.queue == r.queue) ≡ true = ground arith in
    let queue : job.command.queue ≡ r.queue = (string_eq.is_exact _ _).0 same in
    let kept : taken.queue ≡ job.command.queue = ground arith in kept ∙ queue

find_job-Fits :
    (r : ClaimRequest) (id : ℕ) (body : Job → Act (List ClaimedJob)) (c : Client)
    → ((job : Job) → Fits r (body job c).0)
    → Fits r ((find_job crash id >>= body) c).0
find_job-Fits r id body c h = elim (Option-cases (get id c.jobs)) [
  | inl gone ↦ rw gone (Fits-raised r crash)
  | inr (job, there) ↦ rw there (h job)
]

claim_loop-Fits :
    (r : ClaimRequest) (now : ℕ) (selected : List ClaimedJob) (ids : List ℕ) (c : Client)
    → All (InQueue r) selected
    → Fits r (claim_loop r now selected ids c).0
unfolding claim_loop
claim_loop-Fits r now selected [] c all = Fits-ok r selected all
claim_loop-Fits r now selected (id ∷ ids) c all = find_job-Fits r id _ c λ job.
    elim (Bool-cases (is_eligible r now job)) [
      | inr pass ↦ rw pass (claim_loop-Fits r now selected ids c all)
      | inl take ↦ rw take (
          take-Fits r now selected ids (take_job r now id job c).0 (take_job r now id job c).1 all
            (λ taken e. taken-InQueue r now id job c taken take e)
            (λ more fit. claim_loop-Fits r now more ids (take_job r now id job c).1 fit))
    ]

result-Fits :
    (r : ClaimRequest) (x : Result (List ClaimedJob)) (d : Client) (result : ClaimResult)
    → Fits r x
    → (and_then x (λ jobs. pure (claim_result jobs)) d).0 ≡ ok result
    → All (InQueue r) result.jobs
result-Fits r (ok jobs) d result fit e = rw⁻¹ (same_jobs jobs result e) (fit.at jobs refl)
result-Fits r (raised x) d result fit e = absurd cc

claim_known-Fits :
    (now : Reading) (r : ClaimRequest) (b : Bool) (c : Client) (result : ClaimResult)
    → (claim_known now r b c).0 ≡ ok result
    → All (InQueue r) result.jobs
unfolding claim_known
claim_known-Fits now r false c result e = rw⁻¹ (no_jobs result e) tt
  where
    no_jobs :
        (result : ClaimResult)
        → ok (record { state = ClaimState.unknown_queue; jobs = [] }) ≡ ok result
        → [] ≡ result.jobs
    no_jobs result e = ground arith
claim_known-Fits none r true c result e = absurd cc
claim_known-Fits (some at) r true c result e =
    result-Fits r (claim_loop r at [] c.order c).0 (claim_loop r at [] c.order c).1 result
      (claim_loop-Fits r at [] c.order c tt) e

-- Whatever the state is, every job that a claim hands out is of the queue that the claim names.
pub claim-queue :
    (now : Reading) (r : ClaimRequest) (c : Client) (result : ClaimResult)
    → (claim now r c).0 ≡ ok result
    → All (InQueue r) result.jobs
claim-queue now r c result e = elim (Bool-cases c.closed) [
  | inl shut ↦ let refused = closed_claim now r c shut in absurd cc
  | inr active ↦
      claim_known-Fits now r (contains r.queue c.known_queues) c result
        (sym (open_claim now r c active) ∙ e)
]
