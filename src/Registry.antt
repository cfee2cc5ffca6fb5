-- ===== src/Registry.antt =====
-- registry.py: the tasks of a worker by name, and the followups that a task may hand back.
pub mod Graph
pub mod Registered
pub mod Lookups
use outlabs_taskq.Prelude.{
  ℕ, Bool, true, false, not, ◌&&◌, ◌==◌, String, Option, none, some, List, [], ◌∷◌, any,
  if◌then◌else◌, nat_eq, string_eq, pair_eq,
}
use outlabs_taskq.Dict.{Dict, get, put}
use outlabs_taskq.Protocol.{Json, Followup, text_or}

-- TaskqConfigError, UnknownTaskError and InvalidFollowupError
pub data RegistryError : Type 0 where
  config unknown_task invalid_followup : RegistryError

pub data Checked {ℓ} (A : Type ℓ) : Type ℓ where
  accepted : A → Checked A
  refused : RegistryError → Checked A

-- FollowupTarget
pub record Target : Type 0 where
  pub queue : String
  pub job_type : String
  pub workflow_member : Bool
  pub continuation_revision : Option String

-- Task, as far as a registry reads it. `identity` stands for the object, and `validate` for the
-- dump of the task's Pydantic model, where that accepts a payload.
pub record Task : Type 0 where
  pub identity : ℕ
  pub name : String
  pub aliases : List String
  pub queue : String
  pub targets : List Target
  pub validate : Json → Option Json

pub record TaskRegistry : Type 0 where
  pub canonical : Dict String Task
  pub lookup : Dict String Task

abbrev pub empty_registry : TaskRegistry
empty_registry = record { canonical = []; lookup = [] }

abbrev pub is_given {ℓ} : {A : Type ℓ} → Option A → Bool
is_given none = false
is_given (some a) = true

-- set(keys) & lookup.keys()
unfoldable pub collides : List String → Dict String Task → Bool
collides keys lookup = any (λ k. is_given (get k lookup)) keys

unfoldable pub add_keys : List String → Task → Dict String Task → Dict String Task
add_keys [] task lookup = lookup
add_keys (k ∷ ks) task lookup = add_keys ks task (put k task lookup)

abbrev add_task : Task → TaskRegistry → TaskRegistry
add_task task r = record {
  canonical = put task.name task r.canonical;
  lookup = add_keys (task.name ∷ task.aliases) task r.lookup;
}

-- The loop over the tasks, on the copies of the two dicts.
unfoldable pub add_tasks : List Task → TaskRegistry → Checked TaskRegistry
add_tasks [] r = accepted r
add_tasks (task ∷ tasks) r =
    let rest = add_tasks tasks (add_task task r) in
    if collides (task.name ∷ task.aliases) r.lookup then refused config else rest

-- register_many: the result, and the registry behind the call
unfoldable pub register_many : List Task → TaskRegistry → Checked {0} Unit × TaskRegistry
unfolding add_tasks
register_many tasks r = elim (add_tasks tasks r) [
  | accepted more ↦ (accepted tt, more)
  | refused e ↦ (refused e, r)
]

unfoldable pub resolve : TaskRegistry → String → Option Task
resolve r name = get name r.lookup

-- require, for a name
unfoldable pub require_name : TaskRegistry → String → Checked Task
unfolding resolve
require_name r name = elim (resolve r name) [
  | none ↦ refused unknown_task
  | some task ↦ accepted task
]

-- require, for a task
unfoldable pub require_task : TaskRegistry → Task → Checked Task
require_task r task = elim (get task.name r.canonical) [
  | none ↦ refused unknown_task
  | some known ↦ if known.identity == task.identity then accepted known else refused unknown_task
]

-- canonical
unfoldable pub canonical_name : TaskRegistry → String → Checked String
unfolding resolve
canonical_name r name = elim (resolve r name) [
  | none ↦ refused unknown_task
  | some task ↦ accepted task.name
]

-- The canonical identities of the declared targets, each with its member flag.
unfoldable pub declared_targets :
    TaskRegistry
    → List Target
    → Dict (String × String) Target
    → Checked (Dict (String × String) Target)
unfolding resolve
declared_targets r [] declared = accepted declared
declared_targets r (t ∷ ts) declared = elim (resolve r t.job_type) [
  | none ↦ refused config
  | some child ↦ elim (is_given (get (t.queue, child.name) declared)) [
    | true ↦ refused config
    | false ↦ declared_targets r ts (put (t.queue, child.name) t declared)
  ]
]

abbrev normal_form : Task → Task → String → Json → Followup → Followup
normal_form parent target queue payload f = record f {
  job_type = target.name;
  queue = if queue == parent.queue then none else some queue;
  payload = payload;
}

abbrev pub with_payload : Task → Task → String → Followup → Option Json → Checked Followup
with_payload parent target queue f none = refused invalid_followup
with_payload parent target queue f (some payload) =
    accepted (normal_form parent target queue payload f)

abbrev pub with_target : Task → Task → String → Followup → Option Target → Checked Followup
with_target parent target queue f none = refused invalid_followup
with_target parent target queue f (some declaration) =
    if target.queue == queue && not (f.workflow_member && not declaration.workflow_member)
    then with_payload parent target queue f (target.validate f.payload)
    else refused invalid_followup

-- One round of the loop over the followups.
unfoldable pub normalize :
    TaskRegistry → Task → Dict (String × String) Target → Followup → Checked Followup
unfolding resolve
normalize r parent declared f = elim (resolve r f.job_type) [
  | none ↦ refused invalid_followup
  | some target ↦
      let queue = text_or f.queue parent.queue in
      with_target parent target queue f (get (queue, target.name) declared)
]

abbrev pub cons_checked : Checked Followup → Checked (List Followup) → Checked (List Followup)
cons_checked (refused e) rest = refused e
cons_checked (accepted f) (refused e) = refused e
cons_checked (accepted f) (accepted fs) = accepted (f ∷ fs)

unfoldable pub normalize_all :
    TaskRegistry → Task → Dict (String × String) Target → List Followup → Checked (List Followup)
normalize_all r parent declared [] = accepted []
normalize_all r parent declared (f ∷ fs) =
    cons_checked (normalize r parent declared f) (normalize_all r parent declared fs)

-- normalize_followups
unfoldable pub normalize_followups : TaskRegistry → Task → List Followup → Checked (List Followup)
unfolding declared_targets normalize_all
normalize_followups r parent fs = elim (declared_targets r parent.targets []) [
  | refused e ↦ refused e
  | accepted declared ↦ normalize_all r parent declared fs
]
