-- ===== src/Http/Hub/Wakeups.antt =====
-- No wake-up of the hub in http/hub.py is lost, whatever calls come between.
use outlabs_taskq.Prelude.{
  ℕ, ◌≡◌, subst, ◌∙◌, true, false, ◌||◌, String, Option, List, [], ◌∷◌, contains, nat_eq, string_eq,
  option_eq, option_beq_refl, arith, inl, inr, Bool-cases,
}
use outlabs_taskq.Http.Hub.Calls.{
  Call, stopped, notified, removed, subscribed, run, step, any_wakes, wakes, all_leave, leaves,
  any_counts, Moved, shut, later, any_counts-Moved,
}
use outlabs_taskq.Http.Hub.Buckets.{
  is_set, step-is_set, notify-sets, shutdown-sets, notify-bucket, notify-closed, bucket-subscribe,
  subscribe-bucket, subscribe-closed, remove-bucket, remove-closed,
}
use outlabs_taskq.Http.Hub.{Hub, Subscription, ok, current, bucket, subscribe, wait}

-- Where the event waits: set already, or in its bucket of a hub that is open.
pub data Waits (event : ℕ) (queue : Option String) (h : Hub) : Type 0 where
  woken : is_set event h ≡ true → Waits event queue h
  listed : h.closed ≡ false → contains event (bucket queue h) ≡ true → Waits event queue h

step-listed :
    (event : ℕ) (queue : Option String) (c : Call) (h : Hub)
    → h.closed ≡ false
    → contains event (bucket queue h) ≡ true
    → leaves event c ≡ true
    → Waits event queue (step c h)
unfolding step
step-listed event queue (notified n) h live inside l =
    listed (notify-closed n h ∙ live) (rw notify-bucket inside)
step-listed event queue stopped h live inside l = woken (shutdown-sets event queue h live inside)
step-listed event queue (subscribed observed q) h live inside l =
    listed (subscribe-closed observed q h ∙ live)
      (subscribe-bucket event observed queue q h live inside)
step-listed event queue (removed e q) h live inside l =
    listed (remove-closed e q h ∙ live) (remove-bucket event e queue q h l inside)

step-Waits :
    (event : ℕ) (queue : Option String) (c : Call) (h : Hub)
    → leaves event c ≡ true
    → Waits event queue h
    → Waits event queue (step c h)
step-Waits event queue c h l (woken s) = woken (step-is_set event c h s)
step-Waits event queue c h l (listed live inside) = step-listed event queue c h live inside l

wakes-is_set :
    (event : ℕ) (queue : Option String) (c : Call) (h : Hub)
    → wakes queue c ≡ true
    → Waits event queue h
    → is_set event (step c h) ≡ true
unfolding step
wakes-is_set event queue c h w (woken s) = step-is_set event c h s
wakes-is_set event queue (notified n) h w (listed live inside) =
    notify-sets event queue n h live inside w
wakes-is_set event queue stopped h w (listed live inside) = shutdown-sets event queue h live inside
wakes-is_set event queue (subscribed observed q) h w (listed live inside) = absurd cc
wakes-is_set event queue (removed e q) h w (listed live inside) = absurd cc

run-is_set :
    (event : ℕ) (cs : List Call) (h : Hub) → is_set event h ≡ true → is_set event (run cs h) ≡ true
unfolding run
run-is_set event [] h s = s
run-is_set event (c ∷ cs) h s = run-is_set event cs (step c h) (step-is_set event c h s)

-- A waiter is woken by a call that is for it.
any_wakes-is_set :
    (event : ℕ) (queue : Option String) (cs : List Call) (h : Hub)
    → any_wakes queue cs ≡ true
    → all_leave event cs ≡ true
    → Waits event queue h
    → is_set event (run cs h) ≡ true
unfolding any_wakes all_leave run
any_wakes-is_set event queue [] h w l v = absurd cc
any_wakes-is_set event queue (c ∷ cs) h w l v = elim (Bool-cases (wakes queue c)) [
  | inl now ↦ run-is_set event cs (step c h) (wakes-is_set event queue c h now v)
  | inr not_now ↦
      any_wakes-is_set event queue cs (step c h) (ground (arith, w, not_now)) (ground (arith, l))
        (step-Waits event queue c h (ground (arith, l)) v)
]

subscribe-Waits :
    (observed : ℕ) (queue : Option String) (h : Hub)
    → h.closed ≡ false
    → Waits h.events queue (subscribe observed queue h).1
unfolding contains
subscribe-Waits observed queue h live =
    listed (subscribe-closed observed queue h ∙ live)
      (rw (bucket-subscribe, live) (ground (arith, option_beq_refl queue)))

subscribe-is_set :
    (observed : ℕ) (queue : Option String) (h : Hub)
    → h.closed ≡ false
    → Moved observed queue h
    → is_set h.events (subscribe observed queue h).1 ≡ true
unfolding subscribe contains
subscribe-is_set observed queue h live (shut closed) = absurd cc
subscribe-is_set observed queue h live (later more) = ground (arith, live, more)

-- What an accepted subscription says of the hub and of its event.
subscribe-ok :
    (observed : ℕ) (queue : Option String) (h : Hub) (s : Subscription)
    → (subscribe observed queue h).0 ≡ ok s
    → (h.closed ≡ false) × (s.event ≡ h.events) × (s.closed ≡ false)
unfolding subscribe
subscribe-ok observed queue h s accepted = ground (arith, accepted)

-- The wait of an accepted subscription is answered with true, if a call after it notifies all
-- queues or the subscriber's own, or shuts the hub down, and no call removes the event; and also if
-- such a call came between the observation and the subscription, where it is a notification of the
-- queue itself or the queue had a generation count at the time of the call.
pub run-wait :
    (queue : Option String) (before after : List Call) (h : Hub) (s : Subscription)
    → (subscribe (current queue h) queue (run before h)).0 ≡ ok s
    → any_counts queue before h || any_wakes queue after ≡ true
    → all_leave s.event after ≡ true
    → wait s (run after (subscribe (current queue h) queue (run before h)).1) ≡ true
unfolding wait
run-wait queue before after h s accepted w l =
    let g : ℕ = current queue h in
    let h1 : Hub = run before h in
    let (live, same, fresh) = subscribe-ok g queue h1 s accepted in
    let left : all_leave h1.events after ≡ true = subst (λ e. all_leave e after ≡ true) same l in
    let set : is_set h1.events (run after (subscribe g queue h1).1) ≡ true =
      elim (Bool-cases (any_counts queue before h)) [
        | inl early ↦ run-is_set h1.events after (subscribe g queue h1).1 (
            subscribe-is_set g queue h1 live
              (any_counts-Moved g queue before h early (omega arith)))
        | inr late ↦
            any_wakes-is_set h1.events queue after (subscribe g queue h1).1
              (ground (arith, w, late)) left (subscribe-Waits g queue h1 live)
      ] in
    rw (fresh, same) set
