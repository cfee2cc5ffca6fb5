-- ===== src/Examples/Scheduler.antt =====
-- Concrete inputs for the theorems on the scheduler and on heartbeats.
use outlabs_taskq.Dict.{keys}
use outlabs_taskq.Prelude.{
  distinct, contains, string_eq, ◌-◌, ◌*◌, ℕ, suc, zero, ◌+◌, ◌≤◌, ◌≡◌, ◌↔◌, refl, max, Bool, true,
  false, String, Option, none, some, List, [], ◌∷◌, ◌++◌, All, length, take, arith,
}
use outlabs_taskq.Scheduler.{
  Profile, current_owned, add_page, Round, RunOutcome, summary, run_once, run_batches, run_delays,
}
use outlabs_taskq.Scheduler.Paging.{IsPaged, current_owned-all}
use outlabs_taskq.Scheduler.Backoff.{run_delays-range}
use outlabs_taskq.Scheduler.Budget.{IsAccounted, run_once-IsAccounted}
use outlabs_taskq.Scheduler.Manifest.{ScheduleManifest, ManifestSchedule, plan_manifest, changes}
use outlabs_taskq.Scheduler.Manifest.{CompiledSchedule, plan_drift, compile_items}
use outlabs_taskq.Scheduler.Manifest.Apply.{WriteOutcome, apply_manifest}
use outlabs_taskq.Scheduler.Manifest.Apply.Counts.{
  writes, with_drift, put_all, apply_manifest-writes,
}
use outlabs_taskq.Scheduler.Manifest.Changes.{all_in_sync, plan_manifest-changes}
use outlabs_taskq.Worker.Settlement.{lease_budget, heartbeat_interval}
use outlabs_taskq.Worker.Heartbeat.{
  Call, Reply, LossReason, lost, first_beat, heartbeat_loop, heartbeat, after_reply, allowance,
  deadline, failure_sleep,
}
use outlabs_taskq.Worker.Heartbeat.Budget.{heartbeat_loop-budget}

-- One schedule is owned.
abbrev owned : Profile
owned = record { name = "app.report"; manifest_key = "report"; content = "" }

abbrev one_page : ℕ → Option String → List Profile
one_page limit none = take limit (owned ∷ [])
one_page limit (some after) = []

append-cons : (front rest : List Profile) (p : Profile) → ([] ≡ front ++ p ∷ rest) → ⊥
append-cons [] rest p e = absurd cc
append-cons (q ∷ front) rest p e = absurd cc

rest-nil : (front rest : List Profile) (p : Profile) → (owned ∷ [] ≡ front ++ p ∷ rest) → rest ≡ []
rest-nil [] rest p e = ground (arith, e)
rest-nil (q ∷ front) rest p e =
    let tails : [] ≡ front ++ p ∷ rest = ground (arith, e) in
    absurd (append-cons front rest p tails)

take-nil : (limit : ℕ) → take {A = Profile} limit [] ≡ []
take-nil zero = refl
take-nil (suc n) = refl

one_page-IsPaged : IsPaged (owned ∷ []) one_page
one_page-IsPaged = record {
  from_start = λ limit. refl;
  from_name = λ limit front rest p e. rw (rest-nil front rest p e, take-nil limit) refl;
}

current_owned-all_example : current_owned one_page 2 ≡ some (add_page (owned ∷ []) [])
current_owned-all_example = current_owned-all (owned ∷ []) one_page 2 one_page-IsPaged (omega arith)

-- Two failures and a success, five seconds and a jitter of a tenth.
abbrev cycles : List (Bool × ℕ)
cycles = (true, 900000) ∷ (true, 1100000) ∷ (false, 1000000) ∷ []

run_delays-range_example :
    All
      (λ d.
        (max 10000000000 (5000000 * (1000000 - 100000)) ≤ d)
        × (d ≤ max 10000000000 (30000000 * (1000000 + 100000))))
      (run_delays 5000000 30000000 cycles)
run_delays-range_example =
    run_delays-range 5000000 30000000 100000 (omega arith) cycles
      ((omega arith, omega arith), ((omega arith, omega arith), ((omega arith, omega arith), tt)))

-- Two schedules in the first batch, and nothing after it.
abbrev round_at : ℕ → Round
round_at zero = record { is_in_time = true; is_stopped = false; claimed = 2; jobs = 2; errors = 0 }
round_at (suc k) = record {
  is_in_time = true;
  is_stopped = false;
  claimed = 0;
  jobs = 0;
  errors = 0;
}

runs : run_once round_at 10 300 false ≡ some (summary RunOutcome.fired 1 2 2 0)
unfolding run_once run_batches
runs = refl

run_once-IsAccounted_example : IsAccounted round_at 10 (summary RunOutcome.fired 1 2 2 0)
run_once-IsAccounted_example =
    run_once-IsAccounted round_at 10 300 false (summary RunOutcome.fired 1 2 2 0) runs

abbrev daily : ManifestSchedule String
daily = record {
  definition = "daily";
  is_paused = false;
  overlap = "forbid";
  max_lateness_seconds = none;
  display_name = none;
}

abbrev manifest : ScheduleManifest String
manifest = record { namespace = "app"; source = "repo"; schedules = ("report", daily) ∷ [] }

abbrev hash : String → Bool → String → Option ℕ → String
hash definition is_paused overlap lateness = definition

plan_manifest-changes_example :
    (changes (plan_manifest hash manifest []) ≡ 0)
    ↔ (all_in_sync hash "app" (("report", daily) ∷ []) [] ≡ true)
plan_manifest-changes_example = plan_manifest-changes hash manifest []

-- A transport that logs its calls, and creates each schedule.
abbrev put_created : CompiledSchedule String → Option ℕ → List String → WriteOutcome × List String
put_created item expected_version log = (WriteOutcome.created, item.name ∷ log)

keys_differ : distinct (keys manifest.schedules) ≡ true
unfolding distinct contains
keys_differ = refl

apply_manifest-writes_example :
    let written = put_all hash put_created "app" [] manifest.schedules [] in
    let drifts = plan_drift hash (compile_items hash "app" manifest.schedules) [] in
    (apply_manifest hash put_created manifest [] []
      ≡ some (with_drift (length drifts) written.0, written.1))
    × (writes written.0 ≡ length manifest.schedules)
apply_manifest-writes_example = apply_manifest-writes hash put_created manifest [] [] keys_differ

-- A lease of twenty seconds, and a server that never answers.
abbrev slow : List Call
slow = record { duration = 60000000; reply = Reply.retryable } ∷ []

times_out :
    heartbeat_loop 20 (first_beat 20 0 0) slow ≡ lost LossReason.heartbeat_timeout 15000000 0
unfolding heartbeat_loop first_beat heartbeat allowance deadline lease_budget heartbeat_interval
    after_reply failure_sleep
times_out = refl

heartbeat_loop-budget_example :
    15000000 ≤ max (0 + lease_budget 20) ((first_beat 20 0 0).now + heartbeat_interval 20)
heartbeat_loop-budget_example =
    heartbeat_loop-budget 20 0 0 slow LossReason.heartbeat_timeout 15000000 0 (omega arith)
      times_out
