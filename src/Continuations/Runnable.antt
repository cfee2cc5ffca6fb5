-- ===== src/Continuations/Runnable.antt =====
-- continuations.py: what a validated policy says of the registry.
use outlabs_taskq.Prelude.{
  ◌≡◌, refl, subst, Bool, true, false, ◌&&◌, ◌==◌, some, List, [], ◌∷◌, map, contains, arith,
  string_eq, pair_eq, Bool-cases, Option-cases, inl, inr,
}
use outlabs_taskq.Registry.{Task, TaskRegistry, Checked, accepted, refused, resolve}
use outlabs_taskq.Continuations.{
  PolicyParent, PolicyManifest, CompiledPolicy, Codec, Identity, node_identity, parent_identity,
  ◌>>=◌, unless, is_node, require_policy_node, check_targets, check_parent, check_parents,
  validate_compiled, find_parent, live_edges, is_canonical, require_nodes,
}

-- A task of the registry answers to the identity.
pub record IsRunnable (registry : TaskRegistry) (i : Identity) : Type 0 where
  pub task : Task
  pub is_resolved : resolve registry i.1 ≡ some task
  pub has_name : task.name ≡ i.1
  pub has_queue : task.queue ≡ i.0

module _ {A B : Type 0} where
  pub bind-accepted :
      (m : Checked A) (f : A → Checked B) (b : B)
      → (m >>= f) ≡ accepted b
      → (a : A) × (m ≡ accepted a) × (f a ≡ accepted b)
  bind-accepted (accepted a) f b e = (a, refl, e)
  bind-accepted (refused r) f b e = absurd cc

unless-accepted : (b : Bool) (u : Unit) → unless b ≡ accepted u → b ≡ true
unless-accepted true u e = refl
unless-accepted false u e = absurd cc

require_policy_node-IsRunnable :
    (registry : TaskRegistry) (i : Identity) (task : Task)
    → require_policy_node registry i ≡ accepted task
    → IsRunnable registry i
unfolding require_policy_node is_node
require_policy_node-IsRunnable registry (queue, job_type) task e =
    elim (Option-cases (resolve registry job_type)) [
      | inl absent ↦ absurd (ground (arith, e, absent))
      | inr (known, found) ↦ record {
        task = known;
        is_resolved = found;
        has_name = ground (arith, e, found, string_eq.is_exact known.name job_type);
        has_queue = ground (arith, e, found, string_eq.is_exact known.queue queue);
      }
    ]

-- Every target that a validated parent names is runnable.
check_targets-IsRunnable :
    (registry : TaskRegistry) (edges is : List Identity) (u : Unit)
    → check_targets registry edges is ≡ accepted u
    → (i : Identity) → contains i is ≡ true
    → IsRunnable registry i
unfolding check_targets contains
check_targets-IsRunnable registry edges [] u e i inside = absurd cc
check_targets-IsRunnable registry edges (j ∷ js) u e i inside =
    let (child, named, e1) = bind-accepted (require_policy_node registry j) _ u e in
    let (v, edge, e2) = bind-accepted (unless (contains j edges)) _ u e1 in
    elim (Bool-cases (pair_eq.beq j i)) [
      | inl same ↦
          subst (IsRunnable registry) ((pair_eq.is_exact j i).0 same)
            (require_policy_node-IsRunnable registry j child named)
      | inr other ↦
          check_targets-IsRunnable registry edges js u e2 i (ground (arith, inside, other))
    ]

pub check_parent-IsRunnable :
    (registry : TaskRegistry) (p : PolicyParent) (u : Unit)
    → check_parent registry p ≡ accepted u
    → (i : Identity) → contains i (map node_identity p.targets) ≡ true
    → IsRunnable registry i
unfolding check_parent
check_parent-IsRunnable registry p u e i inside =
    let (parent, named, e1) =
      bind-accepted (require_policy_node registry (parent_identity p)) _ u e in
    let (v, canonical, e2) =
      bind-accepted (unless (is_canonical (map node_identity p.targets))) _ u e1 in
    let (edges, live, e3) = bind-accepted (live_edges registry parent.targets) _ u e2 in
    check_targets-IsRunnable registry edges (map node_identity p.targets) u e3 i inside

pub check_parents-found :
    (registry : TaskRegistry) (ps : List PolicyParent) (u : Unit) (i : Identity) (p : PolicyParent)
    → check_parents registry ps ≡ accepted u
    → find_parent i ps ≡ some p
    → check_parent registry p ≡ accepted tt
unfolding check_parents find_parent
check_parents-found registry [] u i p e found = absurd cc
check_parents-found registry (q ∷ qs) u i p e found =
    let (v, first, e1) = bind-accepted (check_parent registry q) _ u e in
    elim (Bool-cases (pair_eq.beq (parent_identity q) i)) [
      | inl same ↦
          let is : q ≡ p = ground (arith, found, same) in
          subst (λ r. check_parent registry r ≡ accepted tt) is first
      | inr other ↦ check_parents-found registry qs u i p e1 (ground (arith, found, other))
    ]

pub validate-parents :
    (codec : Codec) (registry : TaskRegistry) (policy : CompiledPolicy)
    → validate_compiled codec registry policy ≡ accepted tt
    → check_parents registry policy.manifest.parents ≡ accepted tt
unfolding validate_compiled
validate-parents codec registry policy e =
    let m : PolicyManifest = policy.manifest in
    let (a, h1, e1) =
      bind-accepted (unless (policy.canonical_bytes == codec.canonical_json m)) _ tt e in
    let (b, h2, e2) =
      bind-accepted
        (unless (
          codec.is_hash policy.continuation_policy_hash
          && codec.sha256 (codec.canonical_json m) == policy.continuation_policy_hash))
        _ tt e1 in
    let (c, h3, e3) = bind-accepted (unless (is_canonical (map node_identity m.roots))) _ tt e2 in
    let (d, h4, e4) =
      bind-accepted (unless (is_canonical (map parent_identity m.parents))) _ tt e3 in
    let (r, h5, e5) = bind-accepted (require_nodes registry (map node_identity m.roots)) _ tt e4 in
    let (s, checked, e6) = bind-accepted (check_parents registry m.parents) _ tt e5 in checked
