-- ===== src/Continuations.antt =====
-- continuations.py: the policies that pin the member followups of a workflow.
pub mod Compile
pub mod Runnable
pub mod Enforced
pub mod Keys
use outlabs_taskq.Prelude.{
  ℕ, Bool, true, false, not, ◌&&◌, ◌==◌, String, Option, none, some, List, [], ◌∷◌, contains,
  distinct, list_beq, if◌then◌else◌, leb, string_eq, nat_eq, pair_eq, map,
}
use outlabs_taskq.Protocol.{Followup, text_or}
use outlabs_taskq.Registry.{
  Task, Target, TaskRegistry, Checked, accepted, refused, config, invalid_followup, resolve,
  require_name,
}
use Prim.Native.Nat.{Ordering}
use Prim.Native.String.{compare, ◌++◌ as join}
use text.Mathlib.Text.{starts_with}

-- ContinuationPolicyNode
pub record PolicyNode : Type 0 where
  pub job_type : String
  pub queue : String

-- ContinuationPolicyParent
pub record PolicyParent : Type 0 where
  pub job_type : String
  pub queue : String
  pub revision : String
  pub targets : List PolicyNode

-- ContinuationPolicyManifest
pub record PolicyManifest : Type 0 where
  pub roots : List PolicyNode
  pub parents : List PolicyParent

-- CompiledContinuationPolicy
pub record CompiledPolicy : Type 0 where
  pub manifest : PolicyManifest
  pub canonical_bytes : String
  pub continuation_policy_hash : String
  pub reachable_queues : List String

-- What the module calls: the canonical JSON of a manifest, SHA-256, and the test for 64 lowercase
-- hexadecimal digits.
pub record Codec : Type 0 where
  pub canonical_json : PolicyManifest → String
  pub sha256 : String → String
  pub is_hash : String → Bool

abbrev pub Identity : Type 0
Identity = String × String

abbrev pub node_identity : PolicyNode → Identity
node_identity n = (n.queue, n.job_type)

abbrev pub parent_identity : PolicyParent → Identity
parent_identity p = (p.queue, p.job_type)

abbrev pub text_le : String → String → Bool
text_le s t = elim (compare s t) [ Ordering.gt ↦ false | _ ↦ true ]

-- the order of Python's pairs of strings
abbrev pub identity_le : Identity → Identity → Bool
identity_le (q, j) (r, k) = if q == r then text_le j k else text_le q r

module _ {A : Type 0} where
  unfoldable pub insert : (A → A → Bool) → A → List A → List A
  insert le x [] = x ∷ []
  insert le x (y ∷ ys) = let rest = insert le x ys in if le x y then x ∷ y ∷ ys else y ∷ rest

  -- sorted(xs)
  unfoldable pub sorted : (A → A → Bool) → List A → List A
  unfolding insert
  sorted le [] = []
  sorted le (x ∷ xs) = insert le x (sorted le xs)

  infixl 5 ◌>>=◌
  abbrev pub ◌>>=◌ : {B : Type 0} → Checked A → (A → Checked B) → Checked B
  ◌>>=◌ (accepted a) f = f a
  ◌>>=◌ (refused e) f = refused e

-- if b: raise TaskqConfigError
abbrev pub unless : Bool → Checked {0} Unit
unless true = accepted tt
unless false = refused config

-- x == tuple(sorted(x)) and len(set(x)) == len(x)
unfoldable pub is_canonical : List Identity → Bool
unfolding sorted list_beq distinct
is_canonical xs = list_beq xs (sorted identity_le xs) && distinct xs

unfoldable pub is_node : Task → String → String → Bool
is_node task queue job_type = task.name == job_type && task.queue == queue

-- _require_policy_node
unfoldable pub require_policy_node : TaskRegistry → Identity → Checked Task
unfolding resolve is_node
require_policy_node registry (queue, job_type) = elim (resolve registry job_type) [
  | none ↦ refused config
  | some task ↦ if is_node task queue job_type then accepted task else refused config
]

unfoldable pub require_nodes : TaskRegistry → List Identity → Checked {0} Unit
unfolding require_policy_node
require_nodes registry [] = accepted tt
require_nodes registry (i ∷ is) =
    require_policy_node registry i >>= λ task. require_nodes registry is

-- live_member_edges
unfoldable pub live_edges : TaskRegistry → List Target → Checked (List Identity)
unfolding require_name
live_edges registry [] = accepted []
live_edges registry (t ∷ ts) = require_name registry t.job_type >>= λ child.
    live_edges registry ts >>= λ edges.
    accepted (if t.workflow_member then (t.queue, child.name) ∷ edges else edges)

-- The loop over the targets of one parent.
unfoldable pub check_targets : TaskRegistry → List Identity → List Identity → Checked {0} Unit
unfolding require_policy_node contains
check_targets registry edges [] = accepted tt
check_targets registry edges (i ∷ is) = require_policy_node registry i >>= λ child.
    unless (contains i edges) >>= λ _. check_targets registry edges is

unfoldable pub check_parent : TaskRegistry → PolicyParent → Checked {0} Unit
unfolding require_policy_node is_canonical live_edges check_targets
check_parent registry p = require_policy_node registry (parent_identity p) >>= λ parent.
    unless (is_canonical (map node_identity p.targets)) >>= λ _.
    live_edges registry parent.targets >>= λ edges.
    check_targets registry edges (map node_identity p.targets)

unfoldable pub check_parents : TaskRegistry → List PolicyParent → Checked {0} Unit
unfolding check_parent
check_parents registry [] = accepted tt
check_parents registry (p ∷ ps) = check_parent registry p >>= λ _. check_parents registry ps

-- set.add
abbrev pub add : String → List String → List String
add q qs = if contains q qs then qs else q ∷ qs

unfoldable pub add_queues : List PolicyNode → List String → List String
add_queues [] qs = qs
add_queues (n ∷ ns) qs = add_queues ns (add n.queue qs)

unfoldable pub add_parents : List PolicyParent → List String → List String
unfolding add_queues
add_parents [] qs = qs
add_parents (p ∷ ps) qs = add_parents ps (add_queues p.targets qs)

-- What `reachable_queues` has grown to at the end of the loops.
unfoldable pub reached : PolicyManifest → List String
unfolding add_parents
reached m = add_parents m.parents (add_queues m.roots [])

unfoldable pub validate_compiled : Codec → TaskRegistry → CompiledPolicy → Checked {0} Unit
unfolding is_canonical require_nodes check_parents reached sorted list_beq
validate_compiled codec registry policy =
    let bytes = codec.canonical_json policy.manifest in
    unless (policy.canonical_bytes == bytes) >>= λ _.
    unless (
      codec.is_hash policy.continuation_policy_hash
      && codec.sha256 bytes == policy.continuation_policy_hash)
    >>= λ _. unless (is_canonical (map node_identity policy.manifest.roots)) >>= λ _.
        unless (is_canonical (map parent_identity policy.manifest.parents)) >>= λ _.
        require_nodes registry (map node_identity policy.manifest.roots) >>= λ _.
        check_parents registry policy.manifest.parents >>= λ _.
        unless (list_beq policy.reachable_queues (sorted text_le (reached policy.manifest)))

-- [item for item in followups if item.workflow_member is True]
unfoldable pub members : List Followup → List Followup
members [] = []
members (f ∷ fs) = let rest = members fs in if f.workflow_member then f ∷ rest else rest

-- The first entry of the parent in the policy.
unfoldable pub find_parent : Identity → List PolicyParent → Option PolicyParent
find_parent i [] = none
find_parent i (p ∷ ps) =
    let rest = find_parent i ps in if parent_identity p == i then some p else rest

abbrev pub allowed_of : Option PolicyParent → List Identity
allowed_of none = []
allowed_of (some p) = map node_identity p.targets

abbrev pub followup_identity : Task → Followup → Identity
followup_identity parent f = (text_or f.queue parent.queue, f.job_type)

unfoldable pub all_allowed : Task → List Identity → List Followup → Bool
unfolding contains
all_allowed parent allowed [] = true
all_allowed parent allowed (f ∷ fs) =
    contains (followup_identity parent f) allowed && all_allowed parent allowed fs

unfoldable pub allowed_edges : Task → CompiledPolicy → List Identity
unfolding find_parent
allowed_edges parent policy =
    allowed_of (find_parent (parent.queue, parent.name) policy.manifest.parents)

abbrev pub checked_members :
    Task → List Followup → Option CompiledPolicy → List Followup → Checked (List Followup)
checked_members parent followups policy [] = accepted followups
checked_members parent followups none (f ∷ fs) = refused invalid_followup
checked_members parent followups (some policy) (f ∷ fs) =
    if all_allowed parent (allowed_edges parent policy) (f ∷ fs)
    then accepted followups
    else refused invalid_followup

unfoldable pub enforce : Task → List Followup → Option CompiledPolicy → Checked (List Followup)
unfolding members all_allowed allowed_edges
enforce parent followups policy = checked_members parent followups policy (members followups)

-- The calls behind a key: the text of a UUID, the length of a text in UTF-8, and the expression
-- for a local step.
pub record KeyTexts : Type 0 where
  pub uuid_text : ℕ → String
  pub byte_length : String → ℕ
  pub is_step : String → Bool

-- f"{prefix}{parent}:{step}"
abbrev pub joined : KeyTexts → String → ℕ → String → String
joined texts prefix parent step = join prefix (join (texts.uuid_text parent) (join ":" step))

-- The UUID is an int; zero is the nil UUID.
unfoldable pub derive_key : KeyTexts → String → ℕ → ℕ → String → Checked String
derive_key texts prefix limit parent step =
    if not (parent == 0)
      && texts.is_step step
      && leb (texts.byte_length (joined texts prefix parent step)) limit
    then accepted (joined texts prefix parent step)
    else refused config

unfoldable pub derive_continuation_workflow_step : KeyTexts → ℕ → String → Checked String
unfolding derive_key
derive_continuation_workflow_step texts parent step = derive_key texts "c:" 103 parent step

unfoldable pub derive_continuation_idempotency_key : KeyTexts → ℕ → String → Checked String
unfolding derive_key
derive_continuation_idempotency_key texts parent step = derive_key texts "chain:" 107 parent step

unfoldable pub validate_producer_idempotency_key :
    KeyTexts → Option String → Checked (Option String)
validate_producer_idempotency_key texts none = accepted none
validate_producer_idempotency_key texts (some value) =
    if not (value == "") && leb (texts.byte_length value) 255 && not (starts_with value "chain:")
    then accepted (some value)
    else refused config
