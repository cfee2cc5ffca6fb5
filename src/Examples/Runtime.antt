-- ===== src/Examples/Runtime.antt =====
-- Concrete inputs for the theorems on schedules, registries and workers.
use outlabs_taskq.Prelude.{
  ◌+◌, ◌≤◌, ◌≡◌, refl, true, false, ltb, String, none, some, List, [], ◌∷◌, ◌++◌, arith, contains,
  length, distinct, All, nat_eq, string_eq, pair_eq, any,
}
use outlabs_taskq.Dict.{get}
use outlabs_taskq.Effects.{ok}
use outlabs_taskq.Protocol.{SettleCommand, SettleOutcome, interval, fire_all, seconds}
use outlabs_taskq.Recurrence.{
  Calendar, Evaluation, next, fire_every, catch_up, evaluate_base, evaluate_schedule,
}
use outlabs_taskq.Recurrence.Catchup.{Caught, evaluate-fire_all}
use outlabs_taskq.Registry.{
  Task, accepted, empty_registry, collides, add_tasks, register_many, resolve,
}
use outlabs_taskq.Registry.Lookups.{register_many-resolve}
use outlabs_taskq.Worker.Slots as Slots
use outlabs_taskq.Worker.Slots.Refines.{abstract_of, spec_run, run-spec_run}
use outlabs_taskq.Worker.Service as Service
use outlabs_taskq.Worker.Service.Failure.{IsFailed, run-IsFailed}
use outlabs_taskq.Worker.Settlement.{
  Control, Options, Round, Answer, unavailable, malformed, returned, reports, settle_with_retry,
  report_from_settle, unknown, lease_budget,
}
use outlabs_taskq.Worker.Settlement.Retry.{
  IsOutage, IsMalformed, settle_with_retry-outage, settle_with_retry-cap,
}
use outlabs_taskq.Execution.{
  shutdown, lease_lost, operator, cancel_all, new_token, rank, highest, cancel_all-priority,
  Staging, checkpoints, ack_checkpoint, pending_checkpoint, newest, ack_checkpoint-newest,
}

-- No cron is valid in it.
abbrev calendar : Calendar
calendar = record {
  fields = λ e. [];
  is_zone = λ z. true;
  to_local = λ z t. t;
  to_utc = λ z t. t;
  next_wall = λ e t i. t + i + 1;
  prev_wall = λ e t i. t;
}

abbrev two_due : Evaluation
two_due = record { occurrences = 0 ∷ seconds 60 ∷ []; next_fire_at = seconds 60 + seconds 60 }

two_fire : evaluate_schedule calendar (interval 60) fire_all 3 true 0 (seconds 60) 0 ≡ ok two_due
unfolding evaluate_schedule evaluate_base catch_up fire_every next
two_fire = refl

evaluate-fire_all_example : Caught calendar (interval 60) 3 (seconds 60) 0 two_due
evaluate-fire_all_example =
    evaluate-fire_all calendar (interval 60) 3 0 (seconds 60) two_due two_fire

abbrev task : Task
task = record {
  identity = 1;
  name = "mail.send";
  aliases = "send" ∷ [];
  queue = "mail";
  targets = [];
  validate = λ p. some p;
}

is_registered : (register_many (task ∷ []) empty_registry).0 ≡ accepted tt
unfolding register_many add_tasks collides any get
is_registered = refl

register_many-resolve_example :
    All
      (λ t.
        (name : String)
        → contains name (t.name ∷ t.aliases) ≡ true
        → resolve (register_many (task ∷ []) empty_registry).1 name ≡ some t)
      (task ∷ [])
    × ((name : String) (t : Task)
        → resolve empty_registry name ≡ some t
        → resolve (register_many (task ∷ []) empty_registry).1 name ≡ some t)
register_many-resolve_example = register_many-resolve (task ∷ []) empty_registry is_registered

abbrev supervisor : Slots.Supervisor
supervisor = record {
  concurrency = 1;
  accepting = false;
  stopping = false;
  stopped = false;
  active = [];
}

abbrev slot_events : List Slots.Event
slot_events = Slots.Event.started ∷ Slots.Event.submitted (1, 2) ∷ Slots.Event.submitted (3, 4) ∷ []

run-bound_example :
    length (Slots.run slot_events supervisor).active
    ≤ (Slots.run slot_events supervisor).concurrency
run-bound_example = Slots.run-bound slot_events supervisor (omega arith)

none_twice : distinct supervisor.active ≡ true
unfolding distinct
none_twice = refl

run-spec_run_example :
    (abstract_of (Slots.run slot_events supervisor) ≡ spec_run slot_events (abstract_of supervisor))
    × (distinct (Slots.run slot_events supervisor).active ≡ true)
run-spec_run_example = run-spec_run slot_events supervisor none_twice

abbrev options : Service.Options
options = record {
  batch = 8;
  adaptive_batch = true;
  claim_fatal_threshold = 3;
  unavailable_fatal_threshold = none;
  claim_backoff_base = 1;
  claim_backoff_cap = 30;
  listen = true;
}

abbrev service : Service.Service
service = record {
  state = Service.State.running;
  fatal_error = none;
  stop_requested = false;
  stop_task = Service.StopTask.not_made;
  batch_target = 4;
  streaks = [];
  backoff = [];
  listener_connected = true;
  presence_healthy = true;
}

abbrev outage : Service.ClaimError
outage = record { is_unavailable = true; name = "TQ503" }

abbrev service_events : List Service.Event
service_events = Service.Event.claimed "mail" 4 4 ∷ Service.Event.claim_failed "mail" outage ∷ []

run-batch_example :
    (1 ≤ Service.effective_batch options (Service.run options service_events service))
    × (Service.effective_batch options (Service.run options service_events service) ≤ 8)
run-batch_example =
    Service.run-batch options service_events service (omega arith) (omega arith, omega arith)

run-outages_example : (Service.run options service_events service).fatal_error ≡ none
run-outages_example = Service.run-outages options service_events service refl (refl, tt) refl

abbrev stop_events : List Service.Event
stop_events =
    Service.Event.stop_begun
    ∷ Service.Event.claim_failed "mail" outage
    ∷ Service.Event.stop_ended
    ∷ []

run-IsFailed_example :
    IsFailed outage (Service.run options stop_events (Service.fail_service outage service))
run-IsFailed_example = run-IsFailed options stop_events service outage refl

abbrev settle_options : Options
settle_options = record {
  max_attempts = 1;
  backoff_base = 1;
  backoff_cap = 5;
  backpressure_max_elapsed = 100;
}

abbrev control : Control
control = record {
  lease_seconds = 60;
  reason = none;
  runtime_failed = false;
  abandoned_sync = false;
}

abbrev round_with : Answer → Round
round_with a = record {
  lost_before = false;
  answer = a;
  elapsed = 10;
  stopping = false;
  lost_after = false;
  draw = λ top. top;
  lost_in_delay = false;
}

IsOutage-round : IsOutage control (round_with (unavailable "TQ503" 0))
unfolding lease_budget
IsOutage-round = record {
  unavailable = refl;
  kept_before = refl;
  kept_after = refl;
  going = refl;
  in_lease = omega arith;
}

settle_with_retry-outage_example :
    settle_with_retry settle_options 1 SettleCommand.complete (some control) (
      (round_with (unavailable "TQ503" 0) ∷ round_with (unavailable "TQ503" 0) ∷ [])
      ++ round_with (returned SettleOutcome.ok) ∷ [])
    ≡ some (reports (report_from_settle 1 SettleCommand.complete SettleOutcome.ok false))
settle_with_retry-outage_example =
    settle_with_retry-outage settle_options 1 SettleCommand.complete control
      (round_with (unavailable "TQ503" 0) ∷ round_with (unavailable "TQ503" 0) ∷ [])
      (round_with (returned SettleOutcome.ok)) [] SettleOutcome.ok
      (IsOutage-round, (IsOutage-round, tt)) refl refl refl

malformed_round : IsMalformed "protocol" (round_with (malformed "protocol" 0))
malformed_round = record { malformed = refl; kept_before = refl; kept_after = refl; kept = refl }

abbrev capped_options : Options
capped_options = record settle_options { max_attempts = 3 }

abbrev garbled : Round
garbled = round_with (malformed "protocol" 0)

settle_with_retry-cap_example :
    (settle_with_retry capped_options 1 SettleCommand.complete none (garbled ∷ garbled ∷ []) ≡ none)
    × (settle_with_retry capped_options 1 SettleCommand.complete none (
          ((garbled ∷ garbled ∷ []) ++ garbled ∷ []) ++ round_with (returned SettleOutcome.ok) ∷ [])
        ≡ some (reports (unknown 1 SettleCommand.complete "protocol")))
settle_with_retry-cap_example =
    settle_with_retry-cap capped_options 1 SettleCommand.complete none "protocol"
      (garbled ∷ garbled ∷ []) garbled (round_with (returned SettleOutcome.ok) ∷ [])
      (malformed_round, (malformed_round, tt)) malformed_round refl

cancel_all-priority_example :
    (rank (cancel_all (shutdown ∷ lease_lost ∷ operator ∷ []) new_token).reason
      ≡ highest (shutdown ∷ lease_lost ∷ operator ∷ []))
    × ((cancel_all (shutdown ∷ lease_lost ∷ operator ∷ []) new_token).is_cancelled
        ≡ ltb 0 (highest (shutdown ∷ lease_lost ∷ operator ∷ [])))
cancel_all-priority_example = cancel_all-priority (shutdown ∷ lease_lost ∷ operator ∷ [])

abbrev staged : Staging
staged = record { progress = some "a"; generation = 1; pending = some "a" }

staged_pending : pending_checkpoint (λ p. some 5) staged ≡ some (1, "a")
unfolding pending_checkpoint
staged_pending = refl

ack_checkpoint-newest_example :
    (ack_checkpoint (λ p. some 5) 1 (checkpoints (λ p. some 5) ("b" ∷ []) staged)).pending
    ≡ newest (λ p. some 5) ("b" ∷ [])
ack_checkpoint-newest_example =
    ack_checkpoint-newest (λ p. some 5) ("b" ∷ []) staged 1 "a" staged_pending
