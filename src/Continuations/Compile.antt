-- ===== src/Continuations/Compile.antt =====
-- continuations.py: the compiling of a registry's member edges into a policy.
pub mod Measure
pub mod Ends
use outlabs_taskq.Prelude.{
  ℕ, suc, zero, ◌+◌, Bool, true, false, ◌&&◌, ◌==◌, String, Option, none, some, List, [], ◌∷◌, ◌++◌,
  contains, distinct, if◌then◌else◌, leb, length, string_eq, pair_eq, option_eq, map,
}
use outlabs_taskq.Dict.{values}
use outlabs_taskq.Registry.{
  Task, Target, TaskRegistry, Checked, accepted, refused, config, require_name, require_task,
}
use outlabs_taskq.Registry.Graph.{validate_followup_graph}
use outlabs_taskq.Continuations.{
  PolicyNode, PolicyParent, PolicyManifest, CompiledPolicy, Codec, Identity, node_identity,
  parent_identity, identity_le, text_le, sorted, ◌>>=◌, unless, add,
}

-- A root that the caller names, or its task.
pub data Root : Type 0 where
  by_name : String → Root
  by_task : Task → Root

unfoldable pub require_root : TaskRegistry → Root → Checked Task
unfolding require_name require_task
require_root r (by_name name) = require_name r name
require_root r (by_task task) = require_task r task

unfoldable pub require_roots : TaskRegistry → List Root → Checked (List Task)
unfolding require_root
require_roots r [] = accepted []
require_roots r (root ∷ roots) =
    require_root r root >>= λ task. require_roots r roots >>= λ tasks. accepted (task ∷ tasks)

-- [target for target in targets if target.workflow_member]
unfoldable pub member_targets : List Target → List Target
member_targets [] = []
member_targets (t ∷ ts) =
    let rest = member_targets ts in if t.workflow_member then t ∷ rest else rest

-- len({target.continuation_revision for target in targets}) == 1, behind the first target
unfoldable pub share : Option String → List Target → Bool
share revision [] = true
share revision (t ∷ ts) = t.continuation_revision == revision && share revision ts

unfoldable pub require_children : TaskRegistry → List Target → Checked (List Task)
unfolding require_name
require_children r [] = accepted []
require_children r (t ∷ ts) = require_name r t.job_type >>= λ child.
    require_children r ts >>= λ children. accepted (child ∷ children)

abbrev pub task_identity : Task → Identity
task_identity t = (t.queue, t.name)

abbrev pub task_node : Task → PolicyNode
task_node t = record { job_type = t.name; queue = t.queue }

abbrev node_le : PolicyNode → PolicyNode → Bool
node_le m n = identity_le (node_identity m) (node_identity n)

abbrev parent_le : PolicyParent → PolicyParent → Bool
parent_le p q = identity_le (parent_identity p) (parent_identity q)

-- The children of a parent, and its entry in the policy.
pub record Expansion : Type 0 where
  pub children : List Task
  pub parent : PolicyParent

-- One parent with the revision of its member targets.
unfoldable pub expand_with :
    TaskRegistry → Task → List Target → Option String → Checked (Option Expansion)
unfolding require_children sorted distinct
expand_with r parent targets none = refused config
expand_with r parent targets (some revision) = require_children r targets >>= λ children.
    unless (distinct (map task_identity children)) >>= λ _. accepted (
      some (record {
        children = children;
        parent = record {
          job_type = parent.name;
          queue = parent.queue;
          revision = revision;
          targets = sorted node_le (map task_node children);
        };
      }))

-- What the loop does with a parent that it has not visited; none for one without member targets.
unfoldable pub expand_targets : TaskRegistry → Task → List Target → Checked (Option Expansion)
unfolding expand_with share
expand_targets r parent [] = accepted none
expand_targets r parent (t ∷ ts) = unless (share t.continuation_revision ts) >>= λ _.
    expand_with r parent (t ∷ ts) t.continuation_revision

unfoldable pub expand : TaskRegistry → Task → Checked (Option Expansion)
unfolding expand_targets member_targets
expand r parent = expand_targets r parent (member_targets parent.targets)

-- What the loop has gathered.
pub record Gathered : Type 0 where
  pub visited : List String
  pub queues : List String
  pub parents : List PolicyParent

abbrev pub visit : String → Gathered → Gathered
visit name g = record g { visited = name ∷ g.visited }

unfoldable pub add_children : List Task → List String → List String
unfolding contains
add_children [] qs = qs
add_children (c ∷ cs) qs = add_children cs (add c.queue qs)

-- pending.append for each child, with the end of the list on top
unfoldable pub push : List Task → List Task → List Task
push [] pending = pending
push (c ∷ cs) pending = push cs (c ∷ pending)

abbrev pub gather : Expansion → Gathered → Gathered
gather x g = record g {
  queues = add_children x.children g.queues;
  parents = g.parents ++ x.parent ∷ [];
}

-- The `while` loop, with `none` where the fuel ends.
unfoldable pub explore : ℕ → TaskRegistry → List Task → Gathered → Option (Checked Gathered)
unfolding contains expand push add_children
explore fuel r [] g = some (accepted g)
explore zero r (t ∷ pending) g = none
explore (suc fuel) r (t ∷ pending) g = elim (contains t.name g.visited) [
  | true ↦ explore fuel r pending g
  | false ↦ elim (expand r t) [
    | refused e ↦ some (refused e)
    | accepted none ↦ explore fuel r pending (visit t.name g)
    | accepted (some x) ↦ explore fuel r (push x.children pending) (gather x (visit t.name g))
  ]
]

unfoldable pub total_targets : List Task → ℕ
total_targets [] = 0
total_targets (t ∷ ts) = length t.targets + total_targets ts

-- Fuel for the loop: each task is expanded once, and adds one child for each of its targets at most.
abbrev pub explore_fuel : TaskRegistry → List Task → ℕ
explore_fuel r roots = total_targets (values r.canonical) + length roots

abbrev pub start : List Task → Gathered
start roots = record { visited = []; queues = add_children roots []; parents = [] }

unfoldable pub manifest_of : List Task → Gathered → PolicyManifest
unfolding sorted
manifest_of roots g = record {
  roots = sorted node_le (map task_node roots);
  parents = sorted parent_le g.parents;
}

unfoldable pub compiled : Codec → List Task → Gathered → Checked CompiledPolicy
unfolding manifest_of sorted
compiled codec roots g =
    let manifest = manifest_of roots g in
    let bytes = codec.canonical_json manifest in
    unless (leb (length g.queues) 32) >>= λ _. accepted (record {
      manifest = manifest;
      canonical_bytes = bytes;
      continuation_policy_hash = codec.sha256 bytes;
      reachable_queues = sorted text_le g.queues;
    })

abbrev finish : Codec → List Task → Option (Checked Gathered) → Option (Checked CompiledPolicy)
finish codec roots none = none
finish codec roots (some gathered) = some (gathered >>= compiled codec roots)

-- The part behind the resolved roots.
unfoldable pub compile_roots : Codec → TaskRegistry → List Task → Option (Checked CompiledPolicy)
unfolding compiled explore distinct total_targets push add_children
compile_roots codec r [] = some (refused config)
compile_roots codec r (root ∷ roots) = elim (distinct (map task_identity (root ∷ roots))) [
  | false ↦ some (refused config)
  | true ↦
      finish codec (root ∷ roots)
        (explore (explore_fuel r (root ∷ roots)) r (push (root ∷ roots) []) (start (root ∷ roots)))
]

unfoldable pub compile_continuation_policy :
    Codec → TaskRegistry → List Root → Option (Checked CompiledPolicy)
unfolding compile_roots require_roots validate_followup_graph
compile_continuation_policy codec r roots =
    elim (validate_followup_graph r >>= λ _. require_roots r roots) [
      | refused e ↦ some (refused e)
      | accepted tasks ↦ compile_roots codec r tasks
    ]
