-- ===== src/Http/Hub.antt =====
-- http/hub.py: the hub that wakes claims that wait for jobs.
pub mod Buckets
pub mod Calls
pub mod Wakeups
use outlabs_taskq.Prelude.{
  ℕ, ◌+◌, Bool, true, false, not, ◌&&◌, ◌||◌, ◌==◌, String, Option, none, some, List, [], ◌∷◌, ◌++◌,
  contains, if◌then◌else◌, nat_eq, string_eq, option_eq,
}
use outlabs_taskq.Dict.{Dict, get, put, values, map_values}

-- TaskqUnavailableError, with its reason
pub data HubError : Type 0 where
  stopped already_configured : HubError

pub data Outcome {ℓ} (A : Type ℓ) : Type ℓ where
  ok : A → Outcome A
  unavailable : HubError → Outcome A

-- ClaimWaitHub. An `asyncio.Event` is a number; `events` counts those that were made, and `set_events`
-- holds those that are set. The lock makes each method one step.
pub record Hub : Type 0 where
  pub generation : ℕ
  pub queue_generations : Dict String ℕ
  pub closed : Bool
  pub subscribers : Dict (Option String) (List ℕ)
  pub has_registrar : Bool
  pub events : ℕ
  pub set_events : List ℕ

abbrev pub new_hub : Bool → Hub
new_hub registrar = record {
  generation = 0;
  queue_generations = [];
  closed = false;
  subscribers = [];
  has_registrar = registrar;
  events = 0;
  set_events = [];
}

-- ClaimWaitSubscription
pub record Subscription : Type 0 where
  pub event : ℕ
  pub queue : Option String
  pub closed : Bool

abbrev or_zero : Option ℕ → ℕ
or_zero none = 0
or_zero (some n) = n

unfoldable pub queue_generation : String → Hub → ℕ
queue_generation queue h = or_zero (get queue h.queue_generations)

-- What a subscription to all queues, or to one, compares with.
unfoldable pub current : Option String → Hub → ℕ
unfolding queue_generation
current none h = h.generation
current (some queue) h = queue_generation queue h

abbrev or_empty : Option (List ℕ) → List ℕ
or_empty none = []
or_empty (some events) = events

-- self._subscribers.get(queue, ())
unfoldable pub bucket : Option String → Hub → List ℕ
bucket queue h = or_empty (get queue h.subscribers)

-- prepare_queue: whether the registrar, which is the caller's, is called with the queue
unfoldable pub prepare_queue : Hub → Outcome Bool
prepare_queue h = if h.closed then unavailable stopped else ok h.has_registrar

abbrev is_nonempty {ℓ} : {A : Type ℓ} → List A → Bool
is_nonempty [] = false
is_nonempty (x ∷ xs) = true

abbrev is_positive : ℕ → Bool
is_positive n = not (n == 0)

unfoldable pub install_queue_registrar : Hub → Outcome Hub
install_queue_registrar h =
    if h.has_registrar || is_positive h.generation || is_nonempty h.subscribers
    then unavailable already_configured
    else ok (record h { has_registrar = true })

-- The event is made before the lock is taken, so that a refused call makes one too.
unfoldable pub subscribe : ℕ → Option String → Hub → Outcome Subscription × Hub
unfolding current bucket
subscribe observed queue h =
    if h.closed then (unavailable stopped, record h { events = h.events + 1 }) else (
      ok (record { event = h.events; queue = queue; closed = false }),
      record h {
        events = h.events + 1;
        subscribers = put queue (h.events ∷ bucket queue h) h.subscribers;
        set_events = if observed == current queue h then h.set_events else h.events ∷ h.set_events;
      },
    )

-- [event for bucket in buckets for event in bucket]
unfoldable pub concat : List (List ℕ) → List ℕ
concat [] = []
concat (b ∷ bs) = b ++ concat bs

abbrev next : ℕ → ℕ
next n = n + 1

-- The events that a notification sets.
unfoldable pub targets : Option String → Hub → List ℕ
unfolding concat bucket
targets none h = concat (values h.subscribers)
targets (some queue) h = bucket (some queue) h ++ bucket none h

unfoldable pub bumped : Option String → Hub → Dict String ℕ
unfolding queue_generation map_values
bumped none h = map_values next h.queue_generations
bumped (some queue) h = put queue (queue_generation queue h + 1) h.queue_generations

unfoldable pub notify : Option String → Hub → Hub
unfolding targets bumped
notify queue h = if h.closed then h else record h {
  generation = h.generation + 1;
  queue_generations = bumped queue h;
  set_events = targets queue h ++ h.set_events;
}

unfoldable pub shutdown : Hub → Hub
unfolding targets bumped
shutdown h = if h.closed then h else record h {
  closed = true;
  generation = h.generation + 1;
  queue_generations = bumped none h;
  set_events = targets none h ++ h.set_events;
}

unfoldable pub drop : ℕ → List ℕ → List ℕ
drop event [] = []
drop event (e ∷ es) = let rest = drop event es in if e == event then rest else e ∷ rest

-- _remove; a bucket that is not there stays away
unfoldable pub remove : ℕ → Option String → Hub → Hub
unfolding drop bucket
remove event queue h = elim (get queue h.subscribers) [
  | none ↦ h
  | some events ↦ record h { subscribers = put queue (drop event events) h.subscribers }
]

-- ClaimWaitSubscription.aclose
unfoldable pub close : Subscription → Hub → Subscription × Hub
unfolding remove
close s h = if s.closed then (s, h) else (record s { closed = true }, remove s.event s.queue h)

-- The answer of `ClaimWaitSubscription.wait`, whose time ends at the state `h`.
unfoldable pub wait : Subscription → Hub → Bool
unfolding contains
wait s h = not s.closed && contains s.event h.set_events
