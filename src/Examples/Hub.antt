-- ===== src/Examples/Hub.antt =====
-- Concrete inputs for the theorems on the hub of waiting claims.
use outlabs_taskq.Prelude.{◌≡◌, refl, true, false, none, some, [], ◌∷◌, nat_eq, string_eq}
use outlabs_taskq.Dict.{get}
use outlabs_taskq.Http.Hub.{Hub, Subscription, new_hub, current, subscribe, notify, wait}
use outlabs_taskq.Http.Hub.Calls.{
  notified, removed, run, step, any_counts, any_wakes, all_leave, is_known,
}
use outlabs_taskq.Http.Hub.Wakeups.{run-wait}

abbrev empty_hub : Hub
empty_hub = new_hub true

abbrev mail_waiter : Subscription
mail_waiter = record { event = 0; queue = some "mail"; closed = false }

-- A queue without a count is notified before the subscription, and another queue after it.
run-wait_example :
    wait mail_waiter (
      run
        (removed 4 (some "mail") ∷ notified (some "report") ∷ [])
        (subscribe
          (current (some "mail") empty_hub)
          (some "mail")
          (run (notified none ∷ notified (some "mail") ∷ []) empty_hub)).1)
    ≡ true
unfolding is_known get subscribe run step notify any_counts any_wakes all_leave current
run-wait_example =
    run-wait (some "mail") (notified none ∷ notified (some "mail") ∷ [])
      (removed 4 (some "mail") ∷ notified (some "report") ∷ []) empty_hub mail_waiter refl refl refl
