-- ===== src/Fake/Trace.antt =====
-- The calls that a client may get, of all methods of testing.py that change its state, and a run
-- of several calls.
use outlabs_taskq.Prelude.{
  arith, ℕ, ◌≡◌, refl, String, Option, none, some, List, [], ◌∷◌, nat_eq, subst,
}
use outlabs_taskq.Dict.{get}
use outlabs_taskq.Fake.State.{World, Job, Client, new}
use outlabs_taskq.Fake.Call.{Call}
use outlabs_taskq.Fake.Enqueue.{enqueue, enqueue_many}
use outlabs_taskq.Fake.Enqueue.Lifecycle.{enqueue-Keeps, enqueue_many-Keeps}
use outlabs_taskq.Fake.Workflow.{create_workflow, seal_workflow, cancel_workflow}
use outlabs_taskq.Fake.Workflow.Lifecycle.{
  create_workflow-Keeps, seal_workflow-Keeps, cancel_workflow-Keeps,
}
use outlabs_taskq.Fake.Claim.{claim}
use outlabs_taskq.Fake.Claim.Lifecycle.{claim-Keeps}
use outlabs_taskq.Fake.Settle.{heartbeat, fail_attempt, snooze, release, cancel_running}
use outlabs_taskq.Fake.Settle.Lifecycle.{
  heartbeat-Keeps, fail_attempt-Keeps, snooze-Keeps, release-Keeps, cancel_running-Keeps,
}
use outlabs_taskq.Fake.Complete.{complete}
use outlabs_taskq.Fake.Complete.Lifecycle.{complete-Keeps}
use outlabs_taskq.Fake.Admission.{reserve_admission, finish_admission, cancel_admission}
use outlabs_taskq.Fake.Admission.Lifecycle.{
  reserve_admission-Keeps, finish_admission-Keeps, cancel_admission-Keeps,
}
use outlabs_taskq.Fake.Schedule.{put_schedule, retire_schedule}
use outlabs_taskq.Fake.Schedule.Lifecycle.{put_schedule-Keeps, retire_schedule-Keeps}
use outlabs_taskq.Fake.Schedule.Fire.{claim_schedules, fire_schedule, schedule_error}
use outlabs_taskq.Fake.Schedule.Fire.Lifecycle.{
  claim_schedules-Keeps, fire_schedule-Keeps, schedule_error-Keeps,
}
use outlabs_taskq.Fake.Presence.{worker_heartbeat}
use outlabs_taskq.Fake.Presence.Lifecycle.{worker_heartbeat-Keeps}
use outlabs_taskq.Fake.State.{aclose}
use outlabs_taskq.Fake.Lifecycle.Mutation.{same_jobs}
use outlabs_taskq.Fake.Lifecycle.{
  Mutates-Evolves, IsFresh, Evolves, Evolves-IsPreorder, StaysAt, Follows,
}
use outlabs_taskq.Fake.Lifecycle.Creation.{Keeps-weaken}

-- The state behind one call, whether it returned or raised.
unfoldable pub step : Call → Client → Client
step (Call.enqueue command) c = (enqueue command c).1
step (Call.enqueue_many queue items) c = (enqueue_many queue items c).1
step (Call.create_workflow r) c = (create_workflow r c).1
step (Call.seal_workflow id) c = (seal_workflow id c).1
step (Call.cancel_workflow id) c = (cancel_workflow id c).1
step (Call.claim now r) c = (claim now r c).1
step (Call.heartbeat now id attempt worker lease) c = (heartbeat now id attempt worker lease c).1
step (Call.complete id attempt worker result followups policy) c =
    (complete id attempt worker result followups policy c).1
step (Call.fail now id attempt worker error retryable after progress) c =
    (fail_attempt now id attempt worker error retryable after progress c).1
step (Call.snooze now id attempt worker delay reason progress) c =
    (snooze now id attempt worker delay reason progress c).1
step (Call.release now id attempt worker cause delay) c =
    (release now id attempt worker cause delay c).1
step (Call.cancel_running id attempt worker reason) c =
    (cancel_running id attempt worker reason c).1
step (Call.reserve_admission now queue r) c = (reserve_admission now queue r c).1
step (Call.finish_admission now queue key handle job receipt) c =
    (finish_admission now queue key handle job receipt c).1
step (Call.cancel_admission now queue key handle) c = (cancel_admission now queue key handle c).1
step (Call.put_schedule now name d expected) c = (put_schedule now name d expected c).1
step (Call.retire_schedule name expected) c = (retire_schedule name expected c).1
step (Call.claim_schedules now limit lease) c = (claim_schedules now limit lease c).1
step (Call.fire_schedule now id token version dues next) c =
    (fire_schedule now id token version dues next c).1
step (Call.schedule_error now id token version retry) c =
    (schedule_error now id token version retry c).1
step Call.aclose c = (aclose c).1
step (Call.worker_heartbeat now worker queues version) c =
    (worker_heartbeat now worker queues version c).1

unfoldable pub run : List Call → Client → Client
run [] c = c
run (call ∷ calls) c = run calls (step call c)

step-Evolves : (call : Call) (c : Client) → Evolves c (step call c)
unfolding step aclose
step-Evolves (Call.enqueue command) c = (enqueue-Keeps command).at c
step-Evolves (Call.enqueue_many queue items) c = (enqueue_many-Keeps queue items).at c
step-Evolves (Call.create_workflow r) c = (Keeps-weaken _ (create_workflow-Keeps r)).at c
step-Evolves (Call.seal_workflow id) c = (Keeps-weaken _ (seal_workflow-Keeps id)).at c
step-Evolves (Call.cancel_workflow id) c = (Keeps-weaken _ (cancel_workflow-Keeps id)).at c
step-Evolves (Call.claim now r) c = (Keeps-weaken _ (claim-Keeps now r)).at c
step-Evolves (Call.heartbeat now id attempt worker lease) c =
    (Keeps-weaken _ (heartbeat-Keeps now id attempt worker lease)).at c
step-Evolves (Call.complete id attempt worker result followups policy) c =
    (complete-Keeps id attempt worker result followups policy).at c
step-Evolves (Call.fail now id attempt worker error retryable after progress) c =
    (Keeps-weaken _ (fail_attempt-Keeps now id attempt worker error retryable after progress)).at c
step-Evolves (Call.snooze now id attempt worker delay reason progress) c =
    (Keeps-weaken _ (snooze-Keeps now id attempt worker delay reason progress)).at c
step-Evolves (Call.release now id attempt worker cause delay) c =
    (Keeps-weaken _ (release-Keeps now id attempt worker cause delay)).at c
step-Evolves (Call.cancel_running id attempt worker reason) c =
    (Keeps-weaken _ (cancel_running-Keeps id attempt worker reason)).at c
step-Evolves (Call.reserve_admission now queue r) c =
    (Keeps-weaken _ (reserve_admission-Keeps now queue r)).at c
step-Evolves (Call.finish_admission now queue key handle job receipt) c =
    (finish_admission-Keeps now queue key handle job receipt).at c
step-Evolves (Call.cancel_admission now queue key handle) c =
    (Keeps-weaken _ (cancel_admission-Keeps now queue key handle)).at c
step-Evolves (Call.put_schedule now name d expected) c =
    (Keeps-weaken _ (put_schedule-Keeps now name d expected)).at c
step-Evolves (Call.retire_schedule name expected) c =
    (Keeps-weaken _ (retire_schedule-Keeps name expected)).at c
step-Evolves (Call.claim_schedules now limit lease) c =
    (Keeps-weaken _ (claim_schedules-Keeps now limit lease)).at c
step-Evolves (Call.fire_schedule now id token version dues next) c =
    (fire_schedule-Keeps now id token version dues next).at c
step-Evolves (Call.schedule_error now id token version retry) c =
    (Keeps-weaken _ (schedule_error-Keeps now id token version retry)).at c
step-Evolves Call.aclose c =
    Mutates-Evolves c (aclose c).1 (same_jobs c (aclose c).1 refl (omega arith) refl)
step-Evolves (Call.worker_heartbeat now worker queues version) c =
    (Keeps-weaken _ (worker_heartbeat-Keeps now worker queues version)).at c

run-Evolves : (calls : List Call) (c : Client) → Evolves c (run calls c)
unfolding run
run-Evolves [] c = Evolves-IsPreorder.refl_at c
run-Evolves (call ∷ calls) c =
    Evolves-IsPreorder.trans_at c (step call c) _ (step-Evolves call c)
      (run-Evolves calls (step call c))

some_injective : (i j : Job) → some i ≡ some j → i ≡ j
some_injective i j e = cc

stays_there :
    (o p : Option Job) (j : Job) → o ≡ some j → StaysAt o p → (k : Job) × (p ≡ some k) × Follows j k
stays_there none p j e s = absurd cc
stays_there (some i) none j e s = absurd s
stays_there (some i) (some k) j e s = (k, refl, subst (λ x. Follows x k) (some_injective i j e) s)

new-IsFresh :
    (world : World) (queues : List String)
    → ((m n : ℕ) → world.uuid4 m ≡ world.uuid4 n → m ≡ n)
    → IsFresh (new world queues)
unfolding get
new-IsFresh world queues distinct = record { distinct = distinct; unused = λ n le. refl }

-- Whatever calls came before, a job that is stored is still stored after any further calls, and
-- its value then follows the value before: id, queue, type, idempotency key, workflow and parent
-- are the same, a final status has not changed, no status has returned to blocked, and neither
-- the number of attempts nor that of failures is less. The client is new at first, and `uuid4`
-- repeats no value.
pub run-Follows :
    (world : World) (queues : List String) (before after : List Call) (id : ℕ) (j : Job)
    → ((m n : ℕ) → world.uuid4 m ≡ world.uuid4 n → m ≡ n)
    → get id (run before (new world queues)).jobs ≡ some j
    → (k : Job) × (get id (run after (run before (new world queues))).jobs ≡ some k) × Follows j k
run-Follows world queues before after id j distinct e =
    let c = run before (new world queues) in
    let fresh =
      ((run-Evolves before (new world queues)).from_fresh
        (new-IsFresh world queues distinct)).fresh in
    stays_there _ _ j e (((run-Evolves after c).from_fresh fresh).jobs id)
