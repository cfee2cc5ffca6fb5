-- ===== src/Scheduler/Budget.antt =====
-- The budget of a single run of the scheduler, in scheduler.py.
use outlabs_taskq.Prelude.{
  ℕ, suc, zero, ◌+◌, ◌≤◌, ◌≡◌, refl, subst, Bool, false, not, ◌||◌, ◌==◌, ltb, some, if◌then◌else◌,
  nat_eq, arith, inl, inr, Bool-cases,
}
use outlabs_taskq.Scheduler.{
  Round, RunOutcome, nothing_due, fired, budget_exhausted, RunSummary, summary, run_batches,
  run_once,
}

-- The sum of the first `n` rounds.
unfoldable pub total : (ℕ → ℕ) → ℕ → ℕ
total f zero = 0
total f (suc n) = total f n + f n

-- What a summary says of the rounds that were run.
pub record IsAccounted (rounds : ℕ → Round) (max_batches : ℕ) (s : RunSummary) : Type 0 where
  pub in_budget : s.batches ≤ max_batches
  pub all_claimed : s.schedules_claimed ≡ total (λ k. (rounds k).claimed) s.batches
  pub all_jobs : s.jobs_enqueued ≡ total (λ k. (rounds k).jobs) s.batches
  pub all_errors : s.errors_recorded ≡ total (λ k. (rounds k).errors) s.batches
  -- no batch that counts is empty
  pub has_claims : s.batches ≤ s.schedules_claimed
  pub is_idle : s.outcome ≡ nothing_due → s.schedules_claimed ≡ 0

shift : (batches left : ℕ) → suc batches + left ≡ batches + suc left
shift batches left = omega arith

module _ (rounds : ℕ → Round) where
  -- The sums so far, after `batches` rounds that each claimed something.
  record Sums (batches claimed jobs errors : ℕ) : Type 0 where
    of_claimed : claimed ≡ total (λ k. (rounds k).claimed) batches
    of_jobs : jobs ≡ total (λ k. (rounds k).jobs) batches
    of_errors : errors ≡ total (λ k. (rounds k).errors) batches
    is_full : batches ≤ claimed

  Sums-next :
      (batches claimed jobs errors : ℕ)
      → Sums batches claimed jobs errors
      → ((rounds batches).claimed == 0) ≡ false
      → Sums
          (suc batches)
          (claimed + (rounds batches).claimed)
          (jobs + (rounds batches).jobs)
          (errors + (rounds batches).errors)
  unfolding total
  Sums-next batches claimed jobs errors s some_claimed = record {
    of_claimed = rw s.of_claimed refl;
    of_jobs = rw s.of_jobs refl;
    of_errors = rw s.of_errors refl;
    is_full = ground (arith, s.is_full, some_claimed);
  }

  summary-IsAccounted :
      (max_batches batches claimed jobs errors : ℕ) (outcome : RunOutcome)
      → Sums batches claimed jobs errors
      → batches ≤ max_batches
      → (outcome ≡ nothing_due → claimed ≡ 0)
      → IsAccounted rounds max_batches (summary outcome batches claimed jobs errors)
  summary-IsAccounted max_batches batches claimed jobs errors outcome s budget idle = record {
    in_budget = budget;
    all_claimed = s.of_claimed;
    all_jobs = s.of_jobs;
    all_errors = s.of_errors;
    has_claims = s.is_full;
    is_idle = idle;
  }

  run_batches-IsAccounted :
      (left batches claimed jobs errors : ℕ)
      → Sums batches claimed jobs errors
      → IsAccounted rounds (batches + left) (run_batches rounds left batches claimed jobs errors)
  unfolding run_batches
  run_batches-IsAccounted zero batches claimed jobs errors s =
      summary-IsAccounted (batches + 0) batches claimed jobs errors budget_exhausted s (omega arith)
        (λ idle. absurd cc)
  run_batches-IsAccounted (suc left) batches claimed jobs errors s =
      elim (Bool-cases (not (rounds batches).is_in_time || (rounds batches).is_stopped)) [
        | inl over ↦ rw over (
            summary-IsAccounted (batches + suc left) batches claimed jobs errors budget_exhausted s
              (omega arith) (λ idle. absurd cc))
        | inr on ↦ rw on (elim (Bool-cases ((rounds batches).claimed == 0)) [
          | inl empty ↦ rw empty (
              summary-IsAccounted (batches + suc left) batches claimed jobs errors
                (if claimed == 0 then nothing_due else fired) s (omega arith)
                (λ idle. ground (arith, idle)))
          | inr full ↦ rw full (
              subst
                (λ m. IsAccounted rounds m (
                  run_batches rounds left (suc batches) (claimed + (rounds batches).claimed)
                    (jobs + (rounds batches).jobs) (errors + (rounds batches).errors)))
                (shift batches left)
                (run_batches-IsAccounted left (suc batches) _ _ _
                  (Sums-next batches claimed jobs errors s full)))
        ])
      ]

-- An accepted run counts at most `max_batches` batches, its totals are the sums over these, it counts
-- at least as many claimed schedules as batches, and "nothing_due" means that none was claimed.
pub run_once-IsAccounted :
    (rounds : ℕ → Round) (max_batches max_runtime : ℕ) (is_stopped : Bool) (s : RunSummary)
    → run_once rounds max_batches max_runtime is_stopped ≡ some s
    → IsAccounted rounds max_batches s
unfolding run_once total
run_once-IsAccounted rounds max_batches max_runtime is_stopped s e =
    let start : Sums rounds 0 0 0 0 = record {
      of_claimed = refl;
      of_jobs = refl;
      of_errors = refl;
      is_full = omega arith;
    } in
    elim (Bool-cases (ltb max_batches 1 || max_runtime == 0)) [
      | inl refused ↦ absurd (ground (arith, e, refused))
      | inr fine ↦ elim (Bool-cases is_stopped) [
        | inl stopped ↦
            let is : summary nothing_due 0 0 0 0 ≡ s = ground (arith, e, fine, stopped) in
            subst (IsAccounted rounds max_batches) is (
              summary-IsAccounted rounds max_batches 0 0 0 0 nothing_due start (omega arith)
                (λ idle. refl))
        | inr live ↦
            let is : run_batches rounds max_batches 0 0 0 0 ≡ s = ground (arith, e, fine, live) in
            let budget : 0 + max_batches ≡ max_batches = omega arith in
            subst (IsAccounted rounds max_batches) is (
              subst (λ m. IsAccounted rounds m (run_batches rounds max_batches 0 0 0 0)) budget
                (run_batches-IsAccounted rounds max_batches 0 0 0 0 start))
      ]
    ]
