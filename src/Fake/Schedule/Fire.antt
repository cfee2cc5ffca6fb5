-- ===== src/Fake/Schedule/Fire.antt =====
-- `claim_schedules`, `fire_schedule` and `schedule_error` of testing.py.
pub mod Lifecycle
use outlabs_taskq.Prelude.{
  ℕ, ◌+◌, Bool, true, false, not, ◌&&◌, ◌||◌, String, Option, none, some, List, [], ◌∷◌, ◌++◌, ◌==◌,
  if◌then◌else◌, ltb, leb, length, nat_eq, string_eq, option_eq,
}
use Prim.Native.String.{◌++◌ as join}
use outlabs_taskq.Dict.{put, values}
use outlabs_taskq.Effects.{
  not_found, validation, pure, gets, require, modify, raise_if, ◌>>=◌, ◌>>◌,
}
use outlabs_taskq.Protocol.{
  EnqueueCommand, EnqueueStatus, created, existed, CatchupPolicy, skip, ScheduleTarget,
  ScheduleState, active, ActionOutcome, initialized, fired, skipped, error_recorded, stale,
  ScheduleActionResult, seconds,
}
use outlabs_taskq.Fake.State.{World, Schedule, Client, Act, Reading, read_clock, ensure_open}
use outlabs_taskq.Fake.Enqueue.{enqueue}

abbrev put_back : Schedule → Client → Client
put_back s c = record c { schedules = put s.name s c.schedules }

abbrev is_active : ScheduleState → Bool
is_active active = true
is_active _ = false

-- The order of the sort key (next_fire_at, name).
abbrev fires_before : (String → String → Bool) → Schedule → Schedule → Bool
fires_before le a b =
    ltb a.next_fire_at b.next_fire_at || a.next_fire_at == b.next_fire_at && le a.name b.name

insert_schedule : (String → String → Bool) → Schedule → List Schedule → List Schedule
insert_schedule le s [] = s ∷ []
insert_schedule le s (t ∷ ts) =
    let rest = insert_schedule le s ts in if fires_before le s t then s ∷ t ∷ ts else t ∷ rest

unfoldable pub sort_schedules : (String → String → Bool) → List Schedule → List Schedule
unfolding insert_schedule
sort_schedules le [] = []
sort_schedules le (s ∷ ss) = insert_schedule le s (sort_schedules le ss)

abbrev after : Option ℕ → ℕ → Bool
after none now = false
after (some t) now = ltb now t

abbrev is_leased : Option ℕ → Option ℕ → ℕ → Bool
is_leased none expires now = false
is_leased (some token) expires now = after expires now

-- The schedules that the loop does not pass over.
unfoldable pub is_claimable : ℕ → Schedule → Bool
is_claimable now s =
    is_active s.state
    && leb s.next_fire_at now
    && not (after s.retry_not_before now)
    && not (is_leased s.token s.claim_expires_at now)

-- A `ScheduleClaim`: the schedule as it was claimed, the token and the instant of the claim.
pub record ScheduleClaim : Type 0 where
  pub schedule : Schedule
  pub as_of : ℕ
  pub token : ℕ
  pub lease_seconds : ℕ

abbrev pub leased : ℕ → ℕ → ℕ → Schedule → Schedule
leased token now lease s = record s {
  token = some token;
  claim_as_of = some now;
  claim_expires_at = some (now + seconds lease);
}

unfoldable pub claim_one : ℕ → ℕ → Schedule → Act ScheduleClaim
claim_one now lease s = do
  token ← gets (λ c. c.world.uuid4 c.drawn)
  modify (λ c. record (put_back (leased token now lease s) c) { drawn = c.drawn + 1 })
  pure (record {
    schedule = leased token now lease s;
    as_of = now;
    token = token;
    lease_seconds = lease;
  })

unfoldable pub claim_rounds :
    ℕ → ℕ → ℕ → List ScheduleClaim → List Schedule → Act (List ScheduleClaim)
claim_rounds now lease limit claims [] = pure claims
claim_rounds now lease limit claims (s ∷ ss) = elim (is_claimable now s) [
  | false ↦ claim_rounds now lease limit claims ss
  | true ↦ do
    claim ← claim_one now lease s
    elim (length (claims ++ claim ∷ []) == limit) [
      | true ↦ pure (claims ++ claim ∷ [])
      | false ↦ claim_rounds now lease limit (claims ++ claim ∷ []) ss
    ]
]

unfoldable pub claim_schedules : Reading → ℕ → ℕ → Act (List ScheduleClaim)
claim_schedules now limit lease = do
  ensure_open
  raise_if (not (leb 1 limit && leb limit 100) || not (leb 5 lease && leb lease 300))
      (validation "")
  at ← read_clock now
  candidates ← gets (λ c. sort_schedules c.world.text_le (values c.schedules))
  claim_rounds at lease limit [] candidates

find_id : ℕ → List Schedule → Option Schedule
find_id id [] = none
find_id id (s ∷ ss) = if s.schedule_id == id then some s else find_id id ss

-- _schedule_by_id
unfoldable pub schedule_by_id : ℕ → Client → Option Schedule
unfolding find_id
schedule_by_id id c = find_id id (values c.schedules)

abbrev action : ActionOutcome → ℕ → Schedule → ScheduleActionResult
action outcome jobs s = record {
  outcome = outcome;
  replayed = false;
  schedule_id = s.schedule_id;
  jobs_enqueued = jobs;
  next_fire_at = s.next_fire_at;
  state = s.state;
  version = s.version;
}

-- f"schedule:{schedule_id}:{microseconds}"
abbrev occurrence_key : World → ℕ → ℕ → String
occurrence_key world id due =
    join "schedule:" (join (world.uuid_text id) (join ":" (world.number_text due)))

abbrev occurrence_command : World → Schedule → ℕ → EnqueueCommand
occurrence_command world s due = record {
  queue = t.queue;
  job_type = t.job_type;
  payload = t.payload;
  priority = t.priority;
  scheduled_at = some due;
  idempotency_key = some (occurrence_key world s.schedule_id due);
  concurrency_key = t.concurrency_key;
  affinity_key = t.affinity_key;
  max_attempts = t.max_attempts;
  lease_seconds = t.lease_seconds;
  backoff_mode = t.backoff_mode;
  backoff_base = t.backoff_base;
  backoff_cap = t.backoff_cap;
  workflow_id = none;
  step_key = none;
  depends_on = none;
  headers = some t.headers;
  ttl_seconds = none;
  flow_key = none;
}
  where
    t : ScheduleTarget
    t = s.definition.target

abbrev count_created : EnqueueStatus → ℕ
count_created created = 1
count_created existed = 0

-- The jobs of the occurrences; the number of those that did not exist.
unfoldable pub enqueue_occurrences : Schedule → List ℕ → Act ℕ
enqueue_occurrences s [] = pure 0
enqueue_occurrences s (due ∷ dues) = do
  world ← gets (λ c. c.world)
  result ← enqueue (occurrence_command world s due)
  rest ← enqueue_occurrences s dues
  pure (count_created result.status + rest)

abbrev last_or : Option ℕ → List ℕ → Option ℕ
last_or old [] = old
last_or old (due ∷ dues) = last_or (some due) dues

abbrev is_skip : CatchupPolicy → Bool
is_skip skip = true
is_skip _ = false

unfoldable pub fire_outcome : Schedule → ActionOutcome
fire_outcome s =
    if not s.initialized
    then initialized
    else if is_skip s.definition.catchup_policy
    then skipped
    else fired

abbrev fired_schedule : ℕ → List ℕ → ℕ → ActionOutcome → ℕ → Schedule → Schedule
fired_schedule token dues next outcome jobs s = record moved {
  last_action_token = some token;
  last_action = some (action outcome jobs moved);
}
  where
    moved : Schedule
    moved = record s {
      initialized = true;
      next_fire_at = next;
      last_fire_at = last_or s.last_fire_at dues;
      token = none;
      claim_as_of = none;
      claim_expires_at = none;
      retry_not_before = none;
    }

unfoldable pub fire_now : ℕ → List ℕ → ℕ → Schedule → Act ScheduleActionResult
fire_now token dues next s = do
  jobs ← enqueue_occurrences s dues
  modify (put_back (fired_schedule token dues next (fire_outcome s) jobs s))
  pure (action (fire_outcome s) jobs (record s { next_fire_at = next }))

-- The last test for a stale token reads the clock, if the claim has an end.
unfoldable pub fire_unless_expired :
    Reading → ℕ → List ℕ → ℕ → Schedule → Option ℕ → Act ScheduleActionResult
fire_unless_expired now token dues next s none = fire_now token dues next s
fire_unless_expired now token dues next s (some expires) = do
  at ← read_clock now
  if ltb expires at then pure (action stale 0 s) else fire_now token dues next s

abbrev holds_claim : ℕ → ℕ → Schedule → Bool
holds_claim token version s = is_active s.state && s.version == version && s.token == some token

abbrev replay_of : ℕ → Schedule → Option ScheduleActionResult
replay_of token s = if s.last_action_token == some token then s.last_action else none

unfoldable pub fire_at :
    Reading → ℕ → ℕ → List ℕ → ℕ → Schedule → Option ScheduleActionResult → Act ScheduleActionResult
fire_at now token version dues next s (some before) = pure (record before { replayed = true })
fire_at now token version dues next s none =
    if holds_claim token version s
    then fire_unless_expired now token dues next s s.claim_expires_at
    else pure (action stale 0 s)

unfoldable pub fire_schedule : Reading → ℕ → ℕ → ℕ → List ℕ → ℕ → Act ScheduleActionResult
fire_schedule now id token version dues next = do
  ensure_open
  found ← gets (schedule_by_id id)
  s ← require not_found found
  fire_at now token version dues next s (replay_of token s)

unfoldable pub error_at : Reading → ℕ → Schedule → Bool → Act ScheduleActionResult
error_at now retry s false = pure (action stale 0 s)
error_at now retry s true = do
  let dropped = record s { token = none; claim_as_of = none; claim_expires_at = none }
  modify (put_back dropped)
  at ← read_clock now
  modify (put_back (record dropped { retry_not_before = some (at + seconds retry) }))
  pure (action error_recorded 0 dropped)

unfoldable pub schedule_error : Reading → ℕ → ℕ → ℕ → ℕ → Act ScheduleActionResult
schedule_error now id token version retry = do
  ensure_open
  found ← gets (schedule_by_id id)
  s ← require not_found found
  error_at now retry s (holds_claim token version s)
