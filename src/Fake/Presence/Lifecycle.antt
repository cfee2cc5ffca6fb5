-- ===== src/Fake/Presence/Lifecycle.antt =====
-- A worker's heartbeat leaves the jobs alone.
use outlabs_taskq.Prelude.{refl, String, Option, List, arith, string_eq}
use outlabs_taskq.Dict.{put}
use outlabs_taskq.Effects.{modify}
use outlabs_taskq.Effects.Keeps.{Keeps}
use outlabs_taskq.Fake.State.{WorkerPresence, Reading}
use outlabs_taskq.Fake.Presence.{worker_heartbeat}
use outlabs_taskq.Fake.Lifecycle.{Mutates}
use outlabs_taskq.Fake.Lifecycle.Mutation.{mutation_rules, same_jobs}

touch-Keeps :
    (worker : String) (p : WorkerPresence)
    → Keeps Mutates (modify (λ c. record c { workers = put worker p c.workers }))
touch-Keeps worker p = record { at = λ c. same_jobs c _ refl (omega arith) refl }

pub worker_heartbeat-Keeps :
    (now : Reading) (worker : String) (queues : List String) (version : Option String)
    → Keeps Mutates (worker_heartbeat now worker queues version)
unfolding worker_heartbeat
worker_heartbeat-Keeps now worker queues version = search (mutation_rules, touch-Keeps) depth 12
