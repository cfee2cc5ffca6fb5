-- ===== src/Lib.antt =====
-- taskq: a task queue with workers, workflows, admissions and schedules.
--
-- The queue's contract is served by PostgreSQL functions and, for tests, by an in-memory client with
-- the same contract, `FakeTaskQClient` of src/taskq/testing.py. Producers enqueue jobs; workers claim
-- jobs, run handlers (src/taskq/registry.py, src/taskq/execution.py) and settle attempts
-- (src/taskq/worker.py); a scheduler claims due schedules and fires them with the instants that
-- src/taskq/schedules.py computes. The models that all of these exchange stand in
-- src/taskq/protocol.py.
--
-- Files:
-- Prelude, Dict: lists, tests for equality, and Python's dicts as association lists in order.
-- Effects: methods that change an object and may raise, as functions from a state to a result and a
--   state; what was written before a raise stays written. Effects.Keeps has one rule for each way to
--   build such a method, for relations between the state before and behind it.
-- Protocol: the records and enumerations of src/taskq/protocol.py.
-- Fake: `FakeTaskQClient`. Fake.State is the state, a record with the dicts of the client; an object
--   that Python shares is stored under its id, and an assignment to it is a `put` under that id.
--   Fake.Enqueue, Workflow, Claim, Settle, Complete, Admission, Schedule, Schedule.Fire and Presence
--   have the methods, under the names of the source (`fail` is `fail_attempt`, `_finish` is `finish`).
--   The modules called Lifecycle prove for each method how the jobs may change; Fake.Call is a call of
--   a method as data, and Fake.Trace runs several.
-- Execution: the cancellation token and the checkpoints of src/taskq/execution.py.
-- Recurrence: src/taskq/schedules.py.
-- Registry: `TaskRegistry` of src/taskq/registry.py.
-- Worker: decisions of `WorkerService` and `WorkerSupervisor` of src/taskq/worker.py.
--   Worker.Service.Failure follows a failed service through its stop task;
--   Worker.Slots.Refines has the supervisor's view as a set of attempts.
--   Worker.Results is `_normalize_handler_result`, on top of Registry and Continuations, and
--   Worker.Heartbeat is `_heartbeat_loop`, by the duration and the reply of each call.
-- Errors: src/taskq/errors.py, with the codes of src/taskq/protocol.py. In Errors.Exceptions an
--   exception object is a number, with its attributes in a heap.
-- Http: Http.Hub is the hub of waiting claims, src/taskq/http/hub.py, with its lock as one step for each
--   method; Http.Hub.Calls runs calls of other tasks between them. Http.Client, Http.Client.Decode and
--   Http.Client.Send are the request loop of src/taskq/http/client.py, by what the network does at
--   each attempt.
-- Continuations: src/taskq/continuations.py, on top of Registry.
-- Scheduler: src/taskq/scheduler.py; Scheduler.Manifest has its manifests, and Scheduler.Manifest.Apply
--   writes them through a transport that is a parameter.
-- Examples: concrete inputs.
--
-- Conventions: an instant is a number of microseconds, a UUID is a number with 0 for the nil UUID, and
-- a JSON value is its canonical text. The values of `uuid4`, the digest of an admission, the order
-- of texts and the texts of numbers are fields of `World`; that ids are fresh is a hypothesis. The
-- clock of a method is an argument, and none stands for an instant without a zone.
-- `croniter` and `zoneinfo` are the fields of `Calendar`. In Recurrence the instants lie past the
-- smear offset, so that the subtraction of natural numbers is exact; the instant of a `release` with a
-- negative delay stops at the first instant. The factors of the scheduler's jitter are millionths, and
-- its waits are in units of 10 ^ -12 seconds.
--
-- Fuel: the cascade of `_advance_fake_workflow` gets two rounds more than there are jobs; each round
-- takes an id off the frontier or cancels a pending job for each id that it adds. The cron searches
-- have the 370 rounds of the source. The retry loop of a settlement runs over a list of rounds, which
-- say what the server answers and what the clock and the random draw give. The search of an
-- exception chain gets three rounds for each exception of the heap and two more: each exception adds
-- three candidates and is taken once. The pages of owned schedules take any fuel above their number. The
-- compiling of a policy gets one round for each root and for each declared target of the registry.
--
-- Parameters of other code: Pydantic's validation of envelopes, `float`, `str.lower` and
-- `random.uniform` (`Library`), canonical JSON and SHA-256 (`Codec`, `hash`), the texts of UUIDs
-- (`KeyTexts`), and the listing of owned schedules, which answers in pages behind a name (`IsPaged`).
--
-- Not modelled: the SQL transport and its migrations, the HTTP facade, the command methods of the HTTP
-- client, the command line, the benchmarks, the event loops and threads of the worker, the settings and
-- the doctor of the scheduler, and the validators of the Pydantic models, whose inputs are taken as
-- accepted.
pub mod Prelude
pub mod Dict
pub mod Effects
pub mod Protocol
pub mod Fake
pub mod Execution
pub mod Recurrence
pub mod Registry
pub mod Worker
pub mod Errors
pub mod Http
pub mod Continuations
pub mod Scheduler
pub mod Examples
