-- ===== src/Http/Hub/Buckets.antt =====
-- What the calls of http/hub.py do to the buckets of events and to the events that are set.
use outlabs_taskq.Prelude.{
  ℕ, ◌≡◌, refl, ◌∙◌, Bool, true, false, ◌||◌, ◌==◌, String, Option, none, some, List, [], ◌∷◌, ◌++◌,
  contains, if◌then◌else◌, nat_eq, string_eq, option_eq, option_beq, option_beq_iff, arith, inl,
  inr, Bool-cases, Option-cases,
}
use outlabs_taskq.Dict.{Dict, get, put, values, get-put}
use outlabs_taskq.Http.Hub.Calls.{
  Call, stopped, notified, removed, subscribed, step, leaves, is_for, is_for-none,
}
use outlabs_taskq.Http.Hub.{
  Hub, bucket, concat, or_empty, targets, drop, subscribe, notify, shutdown, remove,
}

abbrev pub is_set : ℕ → Hub → Bool
is_set event h = contains event h.set_events

pub contains-append :
    (a : ℕ) (xs ys : List ℕ) → contains a (xs ++ ys) ≡ contains a xs || contains a ys
unfolding contains
contains-append a [] ys = refl
contains-append a (x ∷ xs) ys = ground (arith, contains-append a xs ys)

pub contains-drop :
    (a e : ℕ) (xs : List ℕ) → (e == a) ≡ false → contains a (drop e xs) ≡ contains a xs
unfolding contains drop
contains-drop a e [] ne = refl
contains-drop a e (x ∷ xs) ne = ground (arith, contains-drop a e xs ne)

-- What is in a bucket is in the concatenation of all.
pub contains-concat :
    (a : ℕ) (queue : Option String) (d : Dict (Option String) (List ℕ))
    → contains a (or_empty (get queue d)) ≡ true
    → contains a (concat (values d)) ≡ true
unfolding contains concat get
contains-concat a queue [] h = absurd cc
contains-concat a queue ((q, events) ∷ d) h = elim (Bool-cases (option_beq q queue)) [
  | inl here ↦
      let own : contains a events ≡ true = ground (arith, here, h) in
      contains-append a events (concat (values d)) ∙ rw own refl
  | inr other ↦
      let rest = contains-concat a queue d (ground (arith, other, h)) in
      contains-append a events (concat (values d)) ∙ rw rest (ground arith)
]

-- A notification sets the events that it is for.
pub targets-event :
    (event : ℕ) (queue n : Option String) (h : Hub)
    → contains event (bucket queue h) ≡ true
    → is_for queue n ≡ true
    → contains event (targets n h) ≡ true
unfolding targets bucket
targets-event event queue none h inside for = contains-concat event queue h.subscribers inside
targets-event event none (some n) h inside for =
    contains-append event (bucket (some n) h) (bucket none h) ∙ rw inside (ground arith)
targets-event event (some queue) (some n) h inside for =
    contains-append event (bucket (some n) h) (bucket none h)
    ∙ ground (arith, string_eq.is_exact n queue, for, inside)

pub step-is_set :
    (event : ℕ) (c : Call) (h : Hub) → is_set event h ≡ true → is_set event (step c h) ≡ true
unfolding step notify shutdown subscribe remove contains
step-is_set event (notified n) h s =
    ground (arith, contains-append event (targets n h) h.set_events)
step-is_set event stopped h s = ground (arith, contains-append event (targets none h) h.set_events)
step-is_set event (subscribed observed q) h s = ground arith
step-is_set event (removed e q) h s = ground arith

pub notify-sets :
    (event : ℕ) (queue n : Option String) (h : Hub)
    → h.closed ≡ false
    → contains event (bucket queue h) ≡ true
    → is_for queue n ≡ true
    → is_set event (notify n h) ≡ true
unfolding notify
notify-sets event queue n h live inside for = ground (
  arith,
  live,
  targets-event event queue n h inside for,
  contains-append event (targets n h) h.set_events,
)

pub shutdown-sets :
    (event : ℕ) (queue : Option String) (h : Hub)
    → h.closed ≡ false
    → contains event (bucket queue h) ≡ true
    → is_set event (shutdown h) ≡ true
unfolding shutdown
shutdown-sets event queue h live inside = ground (
  arith,
  live,
  targets-event event queue none h inside (is_for-none queue),
  contains-append event (targets none h) h.set_events,
)

pub notify-bucket : (queue n : Option String) (h : Hub) → bucket queue (notify n h) ≡ bucket queue h
unfolding notify bucket
notify-bucket queue n h = ground arith

pub notify-closed : (n : Option String) (h : Hub) → (notify n h).closed ≡ h.closed
unfolding notify
notify-closed n h = ground arith

-- The events of a bucket after a subscription to `q`.
pub bucket-subscribe :
    (observed : ℕ) (queue q : Option String) (h : Hub)
    → h.closed ≡ false
    → bucket queue (subscribe observed q h).1
      ≡ (if option_beq q queue then h.events ∷ bucket q h else bucket queue h)
unfolding subscribe bucket
bucket-subscribe observed queue q h live =
    ground (arith, live, get-put q queue (h.events ∷ bucket q h) h.subscribers)

pub subscribe-bucket :
    (event observed : ℕ) (queue q : Option String) (h : Hub)
    → h.closed ≡ false
    → contains event (bucket queue h) ≡ true
    → contains event (bucket queue (subscribe observed q h).1) ≡ true
unfolding contains
subscribe-bucket event observed queue q h live inside =
    rw (bucket-subscribe, live) (ground (arith, inside, option_beq_iff q queue))

pub subscribe-closed :
    (observed : ℕ) (q : Option String) (h : Hub) → (subscribe observed q h).1.closed ≡ h.closed
unfolding subscribe
subscribe-closed observed q h = ground arith

pub remove-absent :
    (e : ℕ) (q : Option String) (h : Hub) → get q h.subscribers ≡ none → remove e q h ≡ h
unfolding remove
remove-absent e q h absent = rw (absent, remove) refl

pub remove-found :
    (e : ℕ) (q : Option String) (h : Hub) (events : List ℕ)
    → get q h.subscribers ≡ some events
    → remove e q h ≡ record h { subscribers = put q (drop e events) h.subscribers }
unfolding remove
remove-found e q h events found = rw (found, remove) refl

pub remove-bucket :
    (event e : ℕ) (queue q : Option String) (h : Hub)
    → leaves event (removed e q) ≡ true
    → contains event (bucket queue h) ≡ true
    → contains event (bucket queue (remove e q h)) ≡ true
unfolding bucket
remove-bucket event e queue q h l inside = elim (Option-cases (get q h.subscribers)) [
  | inl absent ↦ rw (remove-absent e q h absent) inside
  | inr (events, found) ↦
      rw (remove-found e q h events found, get-put)
        (ground (arith, l, inside, found, option_beq_iff q queue, contains-drop event e events))
]

pub remove-closed : (e : ℕ) (q : Option String) (h : Hub) → (remove e q h).closed ≡ h.closed
unfolding remove
remove-closed e q h = ground arith
