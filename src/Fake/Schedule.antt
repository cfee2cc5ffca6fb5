-- ===== src/Fake/Schedule.antt =====
-- The schedule methods of testing.py that write, read or retire one schedule.
pub mod Fire
pub mod Lifecycle
pub mod Versions
use outlabs_taskq.Prelude.{
  ℕ, ◌+◌, Bool, true, false, not, ◌&&◌, String, Option, none, some, ◌==◌, if◌then◌else◌, contains,
  nat_eq, string_eq, option_eq,
}
use outlabs_taskq.Dict.{get, put}
use outlabs_taskq.Effects.{
  not_found, conflict, pure, throw, gets, require, modify, raise_if, ◌>>=◌, ◌>>◌,
}
use outlabs_taskq.Protocol.{
  BackoffMode, fixed, exponential, CatchupPolicy, skip, fire_once, fire_all, Recurrence, interval,
  cron, ScheduleTarget, ScheduleDefinition, ScheduleState,
}
use outlabs_taskq.Fake.State.{Schedule, Client, Act, Reading, read_clock, ensure_open}

pub data WriteOutcome : Type 0 where
  created unchanged updated retired already_retired : WriteOutcome

-- ScheduleWriteResult, with the schedule in place of its profile
pub record WriteResult : Type 0 where
  pub outcome : WriteOutcome
  pub profile : Schedule

abbrev mode_beq : Option BackoffMode → Option BackoffMode → Bool
mode_beq none none = true
mode_beq (some fixed) (some fixed) = true
mode_beq (some exponential) (some exponential) = true
mode_beq _ _ = false

abbrev policy_beq : CatchupPolicy → CatchupPolicy → Bool
policy_beq skip skip = true
policy_beq fire_once fire_once = true
policy_beq fire_all fire_all = true
policy_beq _ _ = false

abbrev recurrence_beq : Recurrence → Recurrence → Bool
recurrence_beq (interval a) (interval b) = a == b
recurrence_beq (cron e z) (cron f y) = e == f && z == y
recurrence_beq _ _ = false

abbrev bool_beq : Bool → Bool → Bool
bool_beq true b = b
bool_beq false b = not b

abbrev target_beq : ScheduleTarget → ScheduleTarget → Bool
target_beq a b =
    a.queue == b.queue
    && a.job_type == b.job_type
    && a.payload == b.payload
    && a.headers == b.headers
    && a.priority == b.priority
    && a.max_attempts == b.max_attempts
    && a.lease_seconds == b.lease_seconds
    && mode_beq a.backoff_mode b.backoff_mode
    && a.backoff_base == b.backoff_base
    && a.backoff_cap == b.backoff_cap
    && a.concurrency_key == b.concurrency_key
    && a.affinity_key == b.affinity_key

-- existing.definition == request
unfoldable pub same_definition : ScheduleDefinition → ScheduleDefinition → Bool
same_definition a b =
    target_beq a.target b.target
    && recurrence_beq a.recurrence b.recurrence
    && policy_beq a.catchup_policy b.catchup_policy
    && a.max_catchup == b.max_catchup
    && bool_beq a.paused b.paused

abbrev pub state_beq : ScheduleState → ScheduleState → Bool
state_beq ScheduleState.active ScheduleState.active = true
state_beq ScheduleState.paused ScheduleState.paused = true
state_beq ScheduleState.retired ScheduleState.retired = true
state_beq _ _ = false

abbrev pub set_schedule : String → Schedule → Client → Client
set_schedule name s c = record c { schedules = put name s c.schedules }

abbrev target_state : ScheduleDefinition → ScheduleState
target_state d = if d.paused then ScheduleState.paused else ScheduleState.active

abbrev write_result : WriteOutcome → Schedule → WriteResult
write_result outcome s = record { outcome = outcome; profile = s }

new_schedule : String → ScheduleDefinition → ℕ → ℕ → Schedule
new_schedule name d id now = record {
  schedule_id = id;
  name = name;
  definition = d;
  state = target_state d;
  next_fire_at = now;
  version = 1;
  initialized = false;
  last_fire_at = none;
  token = none;
  claim_as_of = none;
  claim_expires_at = none;
  retry_not_before = none;
  last_action_token = none;
  last_action = none;
}

-- The id is drawn before the clock is read.
unfoldable pub create_schedule : Reading → String → ScheduleDefinition → Act WriteResult
unfolding new_schedule
create_schedule now name d = do
  id ← gets (λ c. c.world.uuid4 c.drawn)
  modify (λ c. record c { drawn = c.drawn + 1 })
  at ← read_clock now
  let s = new_schedule name d id at
  modify (set_schedule name s)
  pure (write_result created s)

-- The claim and the stored action are forgotten.
abbrev pub clear_claim : Schedule → Schedule
clear_claim s = record s {
  token = none;
  claim_as_of = none;
  claim_expires_at = none;
  last_action_token = none;
  last_action = none;
}

unfoldable pub is_pause_only : Schedule → ScheduleDefinition → Bool
unfolding same_definition
is_pause_only s d =
    state_beq s.state ScheduleState.active
    && state_beq (target_state d) ScheduleState.paused
    && same_definition (record s.definition { paused = true }) d

abbrev redefined : ScheduleDefinition → Schedule → Schedule
redefined d s = record (clear_claim s) {
  definition = d;
  state = target_state d;
  version = s.version + 1;
}

unfoldable pub update_schedule :
    Reading → String → ScheduleDefinition → Schedule → Bool → Act WriteResult
update_schedule now name d s true = do
  modify (set_schedule name (redefined d s))
  pure (write_result updated (redefined d s))
update_schedule now name d s false = do
  let restarted = record (redefined d s) { initialized = false }
  modify (set_schedule name restarted)
  at ← read_clock now
  modify (set_schedule name (record restarted { next_fire_at = at }))
  pure (write_result updated (record restarted { next_fire_at = at }))

unfoldable pub versioned_update :
    Reading → String → ScheduleDefinition → Schedule → ℕ → Act WriteResult
versioned_update now name d s expected = do
  raise_if (not (expected == s.version)) (conflict "schedule_version_conflict" (some s.version))
  raise_if (state_beq s.state ScheduleState.retired) (conflict "schedule_retired" (some s.version))
  if same_definition s.definition d && state_beq s.state (target_state d)
      then pure (write_result unchanged s)
      else update_schedule now name d s (is_pause_only s d)

unfoldable pub put_at :
    Reading → String → ScheduleDefinition → Option Schedule → Option ℕ → Act WriteResult
put_at now name d none none = create_schedule now name d
put_at now name d none (some expected) = throw not_found
put_at now name d (some s) none = do
  raise_if (not (same_definition s.definition d)) (conflict "schedule_mismatch" (some s.version))
  pure (write_result unchanged s)
put_at now name d (some s) (some expected) = versioned_update now name d s expected

unfoldable pub put_schedule : Reading → String → ScheduleDefinition → Option ℕ → Act WriteResult
put_schedule now name d expected = do
  ensure_open
  known ← gets (λ c. contains d.target.queue c.known_queues)
  raise_if (not known) not_found
  existing ← gets (λ c. get name c.schedules)
  put_at now name d existing expected

unfoldable pub get_schedule : String → Act Schedule
get_schedule name = do
  ensure_open
  found ← gets (λ c. get name c.schedules)
  require not_found found

unfoldable pub retire_at : String → Schedule → Bool → Act WriteResult
retire_at name s true = pure (write_result already_retired s)
retire_at name s false = do
  let gone = record (clear_claim s) { state = ScheduleState.retired; version = s.version + 1 }
  modify (set_schedule name gone)
  pure (write_result retired gone)

unfoldable pub retire_schedule : String → ℕ → Act WriteResult
retire_schedule name expected = do
  ensure_open
  found ← gets (λ c. get name c.schedules)
  s ← require not_found found
  raise_if (not (expected == s.version)) (conflict "schedule_version_conflict" (some s.version))
  retire_at name s (state_beq s.state ScheduleState.retired)
