-- ===== src/Scheduler.antt =====
-- scheduler.py: the pages of owned schedules, the batches of the engine and the loops of the service.
pub mod Paging
pub mod Budget
pub mod Backoff
pub mod Manifest
use outlabs_taskq.Prelude.{
  ℕ, suc, zero, ◌+◌, ◌*◌, min, max, ltb, Bool, not, ◌||◌, ◌==◌, String, Option, none, some, List,
  [], ◌∷◌, if◌then◌else◌, length, string_eq, nat_eq,
}
use outlabs_taskq.Dict.{Dict, put}
use Prim.Native.String.{◌++◌ as join}

-- ManagedScheduleProfile, as far as the listing reads it; `content` is the rest.
pub record Profile : Type 0 where
  pub name : String
  pub manifest_key : String
  pub content : String

-- page[-1].name
abbrev pub last_name : String → List Profile → String
last_name name [] = name
last_name name (p ∷ ps) = last_name p.name ps

unfoldable pub add_page : List Profile → Dict String Profile → Dict String Profile
add_page [] result = result
add_page (p ∷ ps) result = add_page ps (put p.manifest_key p result)

-- The loop of _current_owned, with `none` where the fuel ends. `page` answers for a limit and the
-- name to start behind.
unfoldable pub list_pages :
    (ℕ → Option String → List Profile)
    → ℕ
    → ℕ
    → Option String
    → Dict String Profile
    → Option (Dict String Profile)
unfolding add_page
list_pages page limit zero after result = none
list_pages page limit (suc fuel) after result =
    let ps = page limit after in
    let more = add_page ps result in
    let rest = list_pages page limit fuel (some (last_name "" ps)) more in
    if ltb (length ps) limit then some more else rest

unfoldable pub current_owned : (ℕ → Option String → List Profile) → ℕ → Option (Dict String Profile)
unfolding list_pages
current_owned page fuel = list_pages page 500 fuel none []

-- A claimed schedule: its id, its token and its version.
pub record Claim : Type 0 where
  pub schedule_id : ℕ
  pub token : ℕ
  pub definition_version : ℕ

-- What a call of the engine hands to the transport.
pub data Action {ℓ} (E : Type ℓ) : Type ℓ where
  fire_schedule : Claim → (evaluation : E) → Action E
  schedule_error : Claim → (code : String) → (retry_seconds : ℕ) → Action E

pub data Evaluated {ℓ} (E : Type ℓ) : Type ℓ where
  evaluated : E → Evaluated E
  raised : (error_type : String) → Evaluated E

-- process_batch, by its calls: `evaluate` is the evaluation of a claim, and `fired` the number of
-- jobs that a fired claim enqueues.
pub record Batch {ℓ} (E : Type ℓ) : Type ℓ where
  pub claimed : ℕ
  pub jobs : ℕ
  pub errors : ℕ
  pub calls : List (Action E)

module _ {ℓ} {E : Type ℓ} (evaluate : Claim → Evaluated E) (fired : Claim → E → ℕ)
    (retry_seconds : ℕ) where
  abbrev join_calendar : String → String
  join_calendar error_type = join "calendar:" error_type

  -- One round of the loop, before the rest of the batch.
  abbrev pub process_one : Claim → Evaluated E → Batch E → Batch E
  process_one c (raised error_type) b = record b {
    errors = b.errors + 1;
    calls = schedule_error c (join_calendar error_type) retry_seconds ∷ b.calls;
  }
  process_one c (evaluated e) b = record b {
    jobs = fired c e + b.jobs;
    calls = fire_schedule c e ∷ b.calls;
  }

  unfoldable pub process_claims : List Claim → Batch E
  process_claims [] = record { claimed = 0; jobs = 0; errors = 0; calls = [] }
  process_claims (c ∷ cs) = process_one c (evaluate c) (process_claims cs)

  -- process_batch of the claims that the transport hands out
  unfoldable pub process_batch : List Claim → Batch E
  unfolding process_claims
  process_batch claims = record (process_claims claims) { claimed = length claims }

-- A round of the loop of run_once: the clock and the stop event at its head, and the batch.
pub record Round : Type 0 where
  pub is_in_time : Bool
  pub is_stopped : Bool
  pub claimed : ℕ
  pub jobs : ℕ
  pub errors : ℕ

pub data RunOutcome : Type 0 where
  nothing_due fired budget_exhausted : RunOutcome

-- SchedulerRunSummary
pub record RunSummary : Type 0 where
  pub outcome : RunOutcome
  pub batches : ℕ
  pub schedules_claimed : ℕ
  pub jobs_enqueued : ℕ
  pub errors_recorded : ℕ

abbrev pub summary : RunOutcome → ℕ → ℕ → ℕ → ℕ → RunSummary
summary outcome batches claimed jobs errors = record {
  outcome = outcome;
  batches = batches;
  schedules_claimed = claimed;
  jobs_enqueued = jobs;
  errors_recorded = errors;
}

-- The `while` loop with `left` batches of the budget to go; `batches` numbers the rounds.
unfoldable pub run_batches : (ℕ → Round) → ℕ → ℕ → ℕ → ℕ → ℕ → RunSummary
run_batches rounds zero batches claimed jobs errors =
    summary budget_exhausted batches claimed jobs errors
run_batches rounds (suc left) batches claimed jobs errors =
    let r = rounds batches in
    let rest =
      run_batches rounds left (suc batches) (claimed + r.claimed) (jobs + r.jobs)
        (errors + r.errors) in
    if not r.is_in_time || r.is_stopped
    then summary budget_exhausted batches claimed jobs errors
    else if r.claimed == 0
    then summary (if claimed == 0 then nothing_due else fired) batches claimed jobs errors
    else rest

-- run_once behind its `tick`, with `none` for the TaskqConfigError; `is_stopped` is the stop event at the start.
unfoldable pub run_once : (ℕ → Round) → ℕ → ℕ → Bool → Option RunSummary
unfolding run_batches
run_once rounds max_batches max_runtime is_stopped =
    if ltb max_batches 1 || max_runtime == 0
    then none
    else if is_stopped
    then some (summary nothing_due 0 0 0 0)
    else some (run_batches rounds max_batches 0 0 0 0)

-- A delay is a number of microseconds, and the factor that `1 + random.uniform(-jitter, jitter)` draws
-- one of millionths: their product, the wait, is in units of 10 ^ -12 seconds.
abbrev pub jittered : (delay factor : ℕ) → ℕ
jittered delay factor = max 10000000000 (delay * factor)

-- The wait after a cycle of `run`, and the backoff that it leaves.
unfoldable pub cycle_delay :
    (poll_interval backoff_cap : ℕ) → (failed : Bool) → (factor : ℕ) → ℕ → ℕ × ℕ
cycle_delay poll_interval backoff_cap failed factor backoff =
    if failed
    then (jittered backoff factor, min backoff_cap (max poll_interval (backoff * 2)))
    else (jittered poll_interval factor, poll_interval)

-- The waits after the cycles of `run`, each with whether it failed and the factor that is drawn.
unfoldable pub delays : (poll_interval backoff_cap : ℕ) → ℕ → List (Bool × ℕ) → List ℕ
unfolding cycle_delay
delays poll_interval backoff_cap backoff [] = []
delays poll_interval backoff_cap backoff ((failed, factor) ∷ cycles) =
    let (wait, next) = cycle_delay poll_interval backoff_cap failed factor backoff in
    wait ∷ delays poll_interval backoff_cap next cycles

-- The loop of `run` from its start.
unfoldable pub run_delays : (poll_interval backoff_cap : ℕ) → List (Bool × ℕ) → List ℕ
unfolding delays
run_delays poll_interval backoff_cap cycles = delays poll_interval backoff_cap poll_interval cycles
