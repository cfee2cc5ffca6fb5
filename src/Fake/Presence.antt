-- ===== src/Fake/Presence.antt =====
-- `worker_heartbeat` of testing.py, for a request that its validators accept.
pub mod Lifecycle
use outlabs_taskq.Prelude.{ℕ, Bool, false, String, Option, none, some, List, string_eq}
use outlabs_taskq.Dict.{get, put}
use outlabs_taskq.Effects.{pure, gets, modify, ◌>>=◌, ◌>>◌}
use outlabs_taskq.Fake.State.{WorkerPresence, Act, Reading, read_clock, ensure_open}

abbrev started_or : ℕ → Option WorkerPresence → ℕ
started_or now none = now
started_or now (some w) = w.started_at

abbrev shutdown_or : Option WorkerPresence → Bool
shutdown_or none = false
shutdown_or (some w) = w.shutdown_requested

presence : String → List String → Option String → ℕ → Option WorkerPresence → WorkerPresence
presence worker queues version now existing = record {
  worker_id = worker;
  declared_queues = queues;
  version = version;
  started_at = started_or now existing;
  last_seen_at = now;
  shutdown_requested = shutdown_or existing;
}

unfoldable pub worker_heartbeat : Reading → String → List String → Option String → Act Bool
unfolding presence
worker_heartbeat now worker queues version = do
  ensure_open
  at ← read_clock now
  existing ← gets (λ c. get worker c.workers)
  modify (λ c. record c {
    workers = put worker (presence worker queues version at existing) c.workers;
  })
  pure false
