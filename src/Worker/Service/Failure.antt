-- ===== src/Worker/Service/Failure.antt =====
-- The failure of a WorkerService in worker.py.
use outlabs_taskq.Prelude.{◌≡◌, Bool, true, false, none, some, List, [], ◌∷◌, arith}
use outlabs_taskq.Worker.Service.{
  State, stopping, stopped, failed, StopTask, not_made, Options, ClaimError, Service, Event,
  claimed, claim_failed, refreshed, stop_called, stop_begun, stop_ended, step, run, note_claimed,
  observe_claim_result, note_claim_error, fail_service, refresh_running_state, stop, begin_stop,
  end_stop,
}

-- Failed, or on the way from there to the stop.
abbrev pub is_over : State → Bool
is_over failed = true
is_over stopping = true
is_over stopped = true
is_over _ = false

abbrev pub has_stop_task : StopTask → Bool
has_stop_task not_made = false
has_stop_task _ = true

-- What a failure leaves behind for good.
pub record IsFailed (first : ClaimError) (s : Service) : Type 0 where
  pub keeps : s.fatal_error ≡ some first
  pub over : is_over s.state ≡ true
  pub asked : s.stop_requested ≡ true
  pub stops : has_stop_task s.stop_task ≡ true

step-IsFailed :
    (o : Options) (e : Event) (s : Service) (first : ClaimError)
    → IsFailed first s
    → IsFailed first (step o e s)
unfolding step note_claimed observe_claim_result note_claim_error fail_service refresh_running_state
    stop begin_stop end_stop
step-IsFailed o (claimed queue got asked) s first h =
    ground (arith, h.keeps, h.over, h.asked, h.stops)
step-IsFailed o (claim_failed queue x) s first h = ground (arith, h.keeps, h.over, h.asked, h.stops)
step-IsFailed o (refreshed connected healthy) s first h =
    ground (arith, h.keeps, h.over, h.asked, h.stops)
step-IsFailed o stop_called s first h = ground (arith, h.keeps, h.over, h.asked, h.stops)
step-IsFailed o stop_begun s first h = ground (arith, h.keeps, h.over, h.asked, h.stops)
step-IsFailed o stop_ended s first h = ground (arith, h.keeps, h.over, h.asked, h.stops)

run-IsFailed_from :
    (o : Options) (es : List Event) (s : Service) (first : ClaimError)
    → IsFailed first s
    → IsFailed first (run o es s)
unfolding run
run-IsFailed_from o [] s first h = h
run-IsFailed_from o (x ∷ xs) s first h =
    run-IsFailed_from o xs (step o x s) first (step-IsFailed o x s first h)

-- A service that fails with a first error keeps that error whatever comes: it has a task that stops
-- it and its stop is requested, and from then on it is failed, stopping or stopped, and never runs
-- again.
pub run-IsFailed :
    (o : Options) (es : List Event) (s : Service) (first : ClaimError)
    → s.fatal_error ≡ none
    → IsFailed first (run o es (fail_service first s))
unfolding fail_service
run-IsFailed o es s first fine =
    run-IsFailed_from o es (fail_service first s) first (ground (arith, fine))
