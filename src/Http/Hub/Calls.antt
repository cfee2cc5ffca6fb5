-- ===== src/Http/Hub/Calls.antt =====
-- Runs of calls of the hub in http/hub.py, by other tasks than the one that waits.
use outlabs_taskq.Prelude.{
  ℕ, ◌+◌, ◌≤◌, ◌<◌, ◌≡◌, refl, Bool, true, false, not, ◌&&◌, ◌||◌, ◌==◌, String, Option, none, some,
  List, [], ◌∷◌, if◌then◌else◌, nat_eq, string_eq, option_eq, arith, inl, inr, Bool-cases,
}
use outlabs_taskq.Dict.{get, get-put, get-map_values, map_option}
use outlabs_taskq.Http.Hub.{
  Hub, current, queue_generation, or_zero, bumped, next, subscribe, notify, shutdown, remove,
}

-- A call of another task.
pub data Call : Type 0 where
  notified : Option String → Call
  stopped : Call
  subscribed : ℕ → Option String → Call
  removed : ℕ → Option String → Call

unfoldable pub step : Call → Hub → Hub
step (notified queue) h = notify queue h
step stopped h = shutdown h
step (subscribed observed queue) h = (subscribe observed queue h).1
step (removed event queue) h = remove event queue h

unfoldable pub run : List Call → Hub → Hub
run [] h = h
run (c ∷ cs) h = run cs (step c h)

-- A notification that is for a subscriber of `queue`: any for a subscriber to all queues, and one
-- for all queues or for its own otherwise.
abbrev pub is_for : Option String → Option String → Bool
is_for none q = true
is_for (some queue) none = true
is_for (some queue) (some q) = q == queue

abbrev pub wakes : Option String → Call → Bool
wakes queue (notified q) = is_for queue q
wakes queue stopped = true
wakes queue (subscribed observed q) = false
wakes queue (removed event q) = false

unfoldable pub any_wakes : Option String → List Call → Bool
any_wakes queue [] = false
any_wakes queue (c ∷ cs) = wakes queue c || any_wakes queue cs

-- `_queue_generations` has an entry of the queue; a subscription to all queues needs none.
unfoldable pub is_known : Option String → Hub → Bool
is_known none h = true
is_known (some queue) h = elim (get queue h.queue_generations) [ none ↦ false | some n ↦ true ]

-- A notification of the very queue.
abbrev is_own : Option String → Call → Bool
is_own (some queue) (notified (some q)) = q == queue
is_own _ _ = false

-- Since an observation, the count of a queue tells a call that is for it, where the queue has a count
-- or the call is its own notification: a notification of all queues makes no new counts.
abbrev pub counts : Option String → Call → Hub → Bool
counts queue c h = wakes queue c && (is_known queue h || is_own queue c)

unfoldable pub any_counts : Option String → List Call → Hub → Bool
any_counts queue [] h = false
any_counts queue (c ∷ cs) h = counts queue c h || any_counts queue cs (step c h)

-- No call takes the event out of its bucket: only `aclose` of its own subscription does.
abbrev pub leaves : ℕ → Call → Bool
leaves event (removed e q) = not (e == event)
leaves event _ = true

unfoldable pub all_leave : ℕ → List Call → Bool
all_leave event [] = true
all_leave event (c ∷ cs) = leaves event c && all_leave event cs

pub is_for-none : (queue : Option String) → is_for queue none ≡ true
is_for-none none = refl
is_for-none (some queue) = refl

-- Since an observation of `g`, the hub was shut or the generation went up.
pub data Moved (g : ℕ) (queue : Option String) (h : Hub) : Type 0 where
  shut : h.closed ≡ true → Moved g queue h
  later : g < current queue h → Moved g queue h

-- What a notification leaves in the counts of the queues.
pub get-bumped_all :
    (queue : String) (h : Hub)
    → get queue (bumped none h) ≡ map_option next (get queue h.queue_generations)
unfolding bumped
get-bumped_all queue h = get-map_values queue next h.queue_generations

get-bumped_one :
    (n queue : String) (h : Hub)
    → get queue (bumped (some n) h)
      ≡ (if n == queue then some (queue_generation n h + 1) else get queue h.queue_generations)
unfolding bumped
get-bumped_one n queue h = get-put n queue (queue_generation n h + 1) h.queue_generations

module _ (queue : String) (h : Hub) where
  bumped-grows : (n : Option String) → queue_generation queue h ≤ or_zero (get queue (bumped n h))
  unfolding queue_generation
  bumped-grows none = rw get-bumped_all (ground arith)
  bumped-grows (some n) = rw get-bumped_one (ground (arith, string_eq.is_exact n queue))

  bumped-passes :
      (n : Option String)
      → is_for (some queue) n ≡ true
      → is_known (some queue) h || is_own (some queue) (notified n) ≡ true
      → queue_generation queue h < or_zero (get queue (bumped n h))
  unfolding queue_generation is_known
  bumped-passes none for known = rw get-bumped_all (ground arith)
  bumped-passes (some n) for known =
      rw (get-bumped_one, for) (ground (arith, string_eq.is_exact n queue))

-- Each call keeps the counts that are there, and a notification raises those that it is for.
notify-current : (queue n : Option String) (h : Hub) → current queue h ≤ current queue (notify n h)
unfolding notify current queue_generation
notify-current none n h = ground arith
notify-current (some q) n h = ground (arith, bumped-grows q h n)

current-shutdown :
    (queue : Option String) (h : Hub) → current queue (shutdown h) ≡ current queue (notify none h)
unfolding notify shutdown current queue_generation
current-shutdown none h = ground arith
current-shutdown (some q) h = ground arith

step-current :
    (queue : Option String) (c : Call) (h : Hub) → current queue h ≤ current queue (step c h)
unfolding step current queue_generation subscribe remove
step-current queue (notified n) h = notify-current queue n h
step-current queue stopped h = rw current-shutdown (notify-current queue none h)
step-current none (subscribed observed q) h = ground arith
step-current (some queue) (subscribed observed q) h = ground arith
step-current none (removed event q) h = ground arith
step-current (some queue) (removed event q) h = ground arith

step-closed : (c : Call) (h : Hub) → h.closed ≡ true → (step c h).closed ≡ true
unfolding step notify shutdown subscribe remove
step-closed (notified n) h closed = ground arith
step-closed stopped h closed = ground arith
step-closed (subscribed observed q) h closed = ground arith
step-closed (removed event q) h closed = ground arith

shutdown-closed : (h : Hub) → (shutdown h).closed ≡ true
unfolding shutdown
shutdown-closed h = ground arith

step-Moved :
    (g : ℕ) (queue : Option String) (c : Call) (h : Hub)
    → Moved g queue h
    → Moved g queue (step c h)
step-Moved g queue c h (shut closed) = shut (step-closed c h closed)
step-Moved g queue c h (later more) = later (omega (arith, more, step-current queue c h))

notify-passes :
    (queue n : Option String) (h : Hub)
    → is_for queue n ≡ true
    → is_known queue h || is_own queue (notified n) ≡ true
    → h.closed ≡ false
    → current queue h < current queue (notify n h)
unfolding notify current
notify-passes none n h for known open_ = ground arith
notify-passes (some q) n h for known open_ = ground (arith, bumped-passes q h n for known)

counts-Moved :
    (g : ℕ) (queue : Option String) (c : Call) (h : Hub)
    → counts queue c h ≡ true
    → g ≤ current queue h
    → Moved g queue (step c h)
unfolding step
counts-Moved g queue c h w up = elim (Bool-cases h.closed) [
  | inl closed ↦ step-Moved g queue c h (shut closed)
  | inr live ↦ passes c w live
]
  where
    passes : (c : Call) → counts queue c h ≡ true → h.closed ≡ false → Moved g queue (step c h)
    passes (notified n) w live =
        later
          (omega (arith, up, notify-passes queue n h (ground (arith, w)) (ground (arith, w)) live))
    passes stopped w live = shut (shutdown-closed h)
    passes (subscribed observed q) w live = absurd (ground (arith, w))
    passes (removed event q) w live = absurd (ground (arith, w))

run-Moved :
    (g : ℕ) (queue : Option String) (cs : List Call) (h : Hub)
    → Moved g queue h
    → Moved g queue (run cs h)
unfolding run
run-Moved g queue [] h m = m
run-Moved g queue (c ∷ cs) h m = run-Moved g queue cs (step c h) (step-Moved g queue c h m)

-- After any calls of which one counts for the queue, an observation from before is out of date.
pub any_counts-Moved :
    (g : ℕ) (queue : Option String) (cs : List Call) (h : Hub)
    → any_counts queue cs h ≡ true
    → g ≤ current queue h
    → Moved g queue (run cs h)
unfolding any_counts run
any_counts-Moved g queue [] h w up = absurd cc
any_counts-Moved g queue (c ∷ cs) h w up = elim (Bool-cases (counts queue c h)) [
  | inl now ↦ run-Moved g queue cs (step c h) (counts-Moved g queue c h now up)
  | inr not_now ↦
      any_counts-Moved g queue cs (step c h) (ground (arith, w, not_now))
        (omega (arith, up, step-current queue c h))
]
