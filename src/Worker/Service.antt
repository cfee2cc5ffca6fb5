-- ===== src/Worker/Service.antt =====
-- WorkerService of worker.py: the adaptive batch, the streaks of claim errors and the service state.
pub mod Failure
use outlabs_taskq.Prelude.{
  ℕ, ◌+◌, ◌-◌, ◌*◌, ◌/◌, ◌^◌, ◌≤◌, ◌≡◌, min, max, Bool, true, false, not, ◌&&◌, ◌||◌, ◌==◌, String,
  Option, none, some, List, [], ◌∷◌, ltb, leb, if◌then◌else◌, nat_eq, string_eq, arith,
}
use outlabs_taskq.Dict.{Dict, get, put, delete}

pub data State : Type 0 where
  constructed starting running degraded stopping stopped failed : State

-- The task of `_stop`: not made, made, past its first step, at its end.
pub data StopTask : Type 0 where
  not_made made begun ended : StopTask

-- The options that this part reads.
pub record Options : Type 0 where
  pub batch : ℕ
  pub adaptive_batch : Bool
  pub claim_fatal_threshold : ℕ
  pub unavailable_fatal_threshold : Option ℕ
  pub claim_backoff_base : ℕ
  pub claim_backoff_cap : ℕ
  pub listen : Bool

-- An error of a claim: its code is that of an outage, or not. `name` tells errors apart.
pub record ClaimError : Type 0 where
  pub is_unavailable : Bool
  pub name : String

pub record Service : Type 0 where
  pub state : State
  pub fatal_error : Option ClaimError
  pub stop_requested : Bool
  pub stop_task : StopTask
  pub batch_target : ℕ
  pub streaks : Dict String ℕ
  -- the upper bound of the delay that is drawn for a queue
  pub backoff : Dict String ℕ
  pub listener_connected : Bool
  pub presence_healthy : Bool

-- _effective_batch
unfoldable pub effective_batch : Options → Service → ℕ
effective_batch o s = if o.adaptive_batch then s.batch_target else o.batch

abbrev next_target : Options → ℕ → ℕ → ℕ → ℕ
next_target o got asked target =
    if leb asked got && ltb 0 got
    then min (target * 2) o.batch
    else if got == 0
    then max 1 (target / 2)
    else target

-- _observe_claim_result
unfoldable pub observe_claim_result : Options → ℕ → ℕ → Service → Service
observe_claim_result o got asked s =
    if o.adaptive_batch
    then record s { batch_target = next_target o got asked s.batch_target }
    else s

-- _ensure_stop_task
abbrev ensure_stop_task : StopTask → StopTask
ensure_stop_task not_made = made
ensure_stop_task made = made
ensure_stop_task begun = begun
ensure_stop_task ended = ended

-- _fail_service: the first error stays, and a task is made that stops the service.
unfoldable pub fail_service : ClaimError → Service → Service
fail_service e s = record s {
  fatal_error = elim s.fatal_error [ none ↦ some e | some first ↦ some first ];
  state = failed;
  stop_requested = true;
  stop_task = ensure_stop_task s.stop_task;
}

abbrev is_constructed : State → Bool
is_constructed constructed = true
is_constructed _ = false

-- stop: a service that was not started is stopped at once.
unfoldable pub stop : Service → Service
stop s =
    if is_constructed s.state
    then record s { state = stopped }
    else record s { stop_task = ensure_stop_task s.stop_task }

-- _stop up to its first wait
unfoldable pub begin_stop : Service → Service
begin_stop s = elim s.stop_task [
  | not_made ↦ s
  | made ↦ record s { state = stopping; stop_requested = true; stop_task = begun }
  | begun ↦ s
  | ended ↦ s
]

-- The end of `_stop`.
unfoldable pub end_stop : Service → Service
end_stop s = elim s.stop_task [
  | not_made ↦ s
  | made ↦ s
  | begun ↦ record s { state = stopped; stop_task = ended }
  | ended ↦ s
]

abbrev or_zero : Option ℕ → ℕ
or_zero none = 0
or_zero (some n) = n

abbrev threshold : Options → ClaimError → Option ℕ
threshold o e =
    if e.is_unavailable then o.unavailable_fatal_threshold else some o.claim_fatal_threshold

abbrev reached : Option ℕ → ℕ → Bool
reached none streak = false
reached (some n) streak = leb n streak

-- The delay before its jitter, in the unit of the options.
abbrev backoff_delay : Options → ℕ → ℕ
backoff_delay o streak = min (o.claim_backoff_base * 2 ^ min (streak - 1) 20) o.claim_backoff_cap

-- _note_claim_error
unfoldable pub note_claim_error : Options → String → ClaimError → Service → Service
unfolding fail_service
note_claim_error o queue e s =
    let streak = or_zero (get queue s.streaks) + 1 in
    let counted = record s { streaks = put queue streak s.streaks } in
    if reached (threshold o e) streak
    then fail_service e counted
    else record counted { backoff = put queue (backoff_delay o streak) s.backoff }

abbrev is_settled : State → Bool
is_settled constructed = true
is_settled stopping = true
is_settled stopped = true
is_settled failed = true
is_settled _ = false

-- _refresh_running_state
unfoldable pub refresh_running_state : Options → Service → Service
refresh_running_state o s = if is_settled s.state then s else record s {
  state =
      if o.listen && not s.listener_connected || not s.presence_healthy then degraded else running;
}

-- A claim that returned ends the streak of its queue and its delay, and counts for the batch.
unfoldable pub note_claimed : Options → String → ℕ → ℕ → Service → Service
unfolding observe_claim_result
note_claimed o queue got asked s =
    observe_claim_result o got asked
      (record s { streaks = delete queue s.streaks; backoff = delete queue s.backoff })

pub data Event : Type 0 where
  claimed : (queue : String) (got asked : ℕ) → Event
  claim_failed : String → ClaimError → Event
  refreshed : (connected healthy : Bool) → Event
  stop_called stop_begun stop_ended : Event

unfoldable pub step : Options → Event → Service → Service
step o (claimed queue got asked) s = note_claimed o queue got asked s
step o (claim_failed queue e) s = note_claim_error o queue e s
step o (refreshed connected healthy) s =
    refresh_running_state o
      (record s { listener_connected = connected; presence_healthy = healthy })
step o stop_called s = stop s
step o stop_begun s = begin_stop s
step o stop_ended s = end_stop s

unfoldable pub run : Options → List Event → Service → Service
run o [] s = s
run o (e ∷ es) s = run o es (step o e s)

target-bounds :
    (o : Options) (e : Event) (s : Service)
    → 1 ≤ o.batch
    → (1 ≤ s.batch_target) × (s.batch_target ≤ o.batch)
    → (1 ≤ (step o e s).batch_target) × ((step o e s).batch_target ≤ o.batch)
unfolding step note_claimed observe_claim_result note_claim_error fail_service refresh_running_state
    stop begin_stop end_stop
target-bounds o (claimed queue got asked) s one h = ground arith
target-bounds o (claim_failed queue e) s one h = ground arith
target-bounds o (refreshed connected healthy) s one h = ground arith
target-bounds o stop_called s one h = ground arith
target-bounds o stop_begun s one h = ground arith
target-bounds o stop_ended s one h = ground arith

-- With a configured batch of at least one, and a target between one and it, the batch that a claim
-- asks for stays between one and the configured batch, whatever claims bring and however they fail.
pub run-batch :
    (o : Options) (es : List Event) (s : Service)
    → 1 ≤ o.batch
    → (1 ≤ s.batch_target) × (s.batch_target ≤ o.batch)
    → (1 ≤ effective_batch o (run o es s)) × (effective_batch o (run o es s) ≤ o.batch)
unfolding run effective_batch
run-batch o [] s one h = ground arith
run-batch o (e ∷ es) s one h = run-batch o es (step o e s) one (target-bounds o e s one h)

abbrev pub OnlyOutages : List Event → Type 0
OnlyOutages [] = Unit
OnlyOutages (claim_failed queue e ∷ es) = (e.is_unavailable ≡ true) × OnlyOutages es
OnlyOutages (claimed queue got asked ∷ es) = OnlyOutages es
OnlyOutages (stop_called ∷ es) = OnlyOutages es
OnlyOutages (stop_begun ∷ es) = OnlyOutages es
OnlyOutages (stop_ended ∷ es) = OnlyOutages es
OnlyOutages (refreshed connected healthy ∷ es) = OnlyOutages es

-- Without a limit for outages, a service that has not failed does not fail, however many claims in a
-- row end in an outage.
pub run-outages :
    (o : Options) (es : List Event) (s : Service)
    → o.unavailable_fatal_threshold ≡ none
    → OnlyOutages es
    → s.fatal_error ≡ none
    → (run o es s).fatal_error ≡ none
unfolding run step note_claimed observe_claim_result note_claim_error refresh_running_state stop
    begin_stop end_stop
run-outages o [] s never h e = e
run-outages o (claimed queue got asked ∷ es) s never h e =
    run-outages o es (step o (claimed queue got asked) s) never h (ground arith)
run-outages o (claim_failed queue x ∷ es) s never h e =
    run-outages o es (step o (claim_failed queue x) s) never h.1 (ground arith)
run-outages o (refreshed connected healthy ∷ es) s never h e =
    run-outages o es (step o (refreshed connected healthy) s) never h (ground arith)
run-outages o (stop_called ∷ es) s never h e =
    run-outages o es (step o stop_called s) never h (ground arith)
run-outages o (stop_begun ∷ es) s never h e =
    run-outages o es (step o stop_begun s) never h (ground arith)
run-outages o (stop_ended ∷ es) s never h e =
    run-outages o es (step o stop_ended s) never h (ground arith)
