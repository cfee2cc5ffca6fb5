-- ===== src/Continuations/Compile/Ends.antt =====
-- The compiling of a policy in continuations.py ends, cycles of followups included.
use outlabs_taskq.Prelude.{
  ℕ, suc, zero, ◌+◌, ◌≤◌, ◌≡◌, refl, sym, subst, true, false, String, Option, none, some, List, [],
  ◌∷◌, contains, length, string_eq, pair_eq, arith, inl, inr, Bool-cases, Option-cases, All, map,
  distinct,
}
use outlabs_taskq.Dict.{get}
use outlabs_taskq.Registry.{
  Task, Target, TaskRegistry, Checked, accepted, refused, config, require_name, require_task,
  resolve, RegistryError,
}
use outlabs_taskq.Registry.Graph.{Checked-cases, validate_followup_graph}
use outlabs_taskq.Continuations.{Codec, CompiledPolicy, ◌>>=◌, unless}
use outlabs_taskq.Continuations.Runnable.{bind-accepted}
use outlabs_taskq.Continuations.Compile.Measure.{
  left_over, left_over-visit, left_over-expand, left_over-total, length-members, length-push,
  length-children,
}
use outlabs_taskq.Continuations.Compile.{
  Root, by_name, by_task, require_root, require_roots, compiled, Expansion, Gathered, visit, gather,
  push, explore, explore_fuel, expand, expand_with, expand_targets, member_targets,
  require_children, start, compile_roots, compile_continuation_policy, share, task_identity,
}

-- What a name resolves to is stored under its own name, as register_many leaves it.
pub record IsConsistent (r : TaskRegistry) : Type 0 where
  pub is_stored :
      (name : String) (t : Task) → resolve r name ≡ some t → get t.name r.canonical ≡ some t
  pub is_named : (name : String) (t : Task) → get name r.canonical ≡ some t → t.name ≡ name

module _ (r : TaskRegistry) (ok : IsConsistent r) where
  abbrev Known : List Task → Type 0
  Known ts = All (λ t. get t.name r.canonical ≡ some t) ts

  push-Known : (cs pending : List Task) → Known cs → Known pending → Known (push cs pending)
  unfolding push
  push-Known [] pending k p = p
  push-Known (c ∷ cs) pending (k, ks) p = push-Known cs (c ∷ pending) ks (k, p)

  require_name-Known :
      (name : String) (t : Task)
      → require_name r name ≡ accepted t
      → get t.name r.canonical ≡ some t
  unfolding require_name
  require_name-Known name t e = elim (Option-cases (resolve r name)) [
    | inl absent ↦ absurd (ground (arith, e, absent))
    | inr (s, found) ↦
        let is : s ≡ t = ground (arith, e, found) in
        subst (λ u. get u.name r.canonical ≡ some u) is (ok.is_stored name s found)
  ]

  require_children-Known :
      (ts : List Target) (children : List Task)
      → require_children r ts ≡ accepted children
      → Known children
  unfolding require_children
  require_children-Known [] children e =
      let is : [] ≡ children = ground (arith, e) in subst Known is tt
  require_children-Known (t ∷ ts) children e =
      let (child, named, e1) = bind-accepted (require_name r t.job_type) _ children e in
      let (rest, others, e2) = bind-accepted (require_children r ts) _ children e1 in
      let is : child ∷ rest ≡ children = ground (arith, e2) in
      subst Known is
        (require_name-Known t.job_type child named, require_children-Known ts rest others)

  -- The children of an expansion are known, and no more than the targets.
  record IsSmall (t : Task) (x : Expansion) : Type 0 where
    is_short : length x.children ≤ length t.targets
    is_known : Known x.children

  expand_with-IsSmall :
      (t : Task) (ts : List Target) (o : Option String) (x : Expansion)
      → length ts ≤ length t.targets
      → expand_with r t ts o ≡ accepted (some x)
      → IsSmall t x
  unfolding expand_with
  expand_with-IsSmall t ts none x short e = absurd (ground (arith, e))
  expand_with-IsSmall t ts (some revision) x short e =
      let (children, all, e1) = bind-accepted (require_children r ts) _ (some x) e in
      let (u, apart, e2) =
        bind-accepted (unless (distinct (map task_identity children))) _ (some x) e1 in
      let is : children ≡ x.children = ground (arith, e2) in
      record {
        is_short =
            subst (λ cs. length cs ≤ length t.targets) is
              (omega (arith, short, length-children r ts children all));
        is_known = subst Known is (require_children-Known ts children all);
      }

  expand_targets-IsSmall :
      (t : Task) (ts : List Target) (x : Expansion)
      → length ts ≤ length t.targets
      → expand_targets r t ts ≡ accepted (some x)
      → IsSmall t x
  unfolding expand_targets
  expand_targets-IsSmall t [] x short e = absurd (ground (arith, e))
  expand_targets-IsSmall t (s ∷ ss) x short e =
      let (u, shared, e1) =
        bind-accepted (unless (share s.continuation_revision ss)) _ (some x) e in
      expand_with-IsSmall t (s ∷ ss) s.continuation_revision x short e1

  expand-IsSmall : (t : Task) (x : Expansion) → expand r t ≡ accepted (some x) → IsSmall t x
  unfolding expand
  expand-IsSmall t x e =
      expand_targets-IsSmall t (member_targets t.targets) x (length-members t.targets) e

  module _ (fuel : ℕ) (t : Task) (pending : List Task) (g : Gathered) where
    explore-seen :
        contains t.name g.visited ≡ true
        → explore (suc fuel) r (t ∷ pending) g ≡ explore fuel r pending g
    unfolding explore
    explore-seen seen = rw (seen, explore) refl

    module _ (new : contains t.name g.visited ≡ false) where
      explore-refused :
          (e : RegistryError)
          → expand r t ≡ refused e
          → explore (suc fuel) r (t ∷ pending) g ≡ some (refused e)
      unfolding explore
      explore-refused e nope = rw (new, nope, explore) refl

      explore-leaf :
          expand r t ≡ accepted none
          → explore (suc fuel) r (t ∷ pending) g ≡ explore fuel r pending (visit t.name g)
      unfolding explore
      explore-leaf nothing = rw (new, nothing, explore) refl

      explore-parent :
          (x : Expansion)
          → expand r t ≡ accepted (some x)
          → explore (suc fuel) r (t ∷ pending) g
            ≡ explore fuel r (push x.children pending) (gather x (visit t.name g))
      unfolding explore
      explore-parent x children = rw (new, children, explore) refl

  explore-ends :
      (fuel : ℕ) (pending : List Task) (g : Gathered)
      → Known pending
      → left_over r.canonical g.visited + length pending ≤ fuel
      → (out : Checked Gathered) × (explore fuel r pending g ≡ some out)
  unfolding explore
  explore-ends fuel [] g known enough = (accepted g, refl)
  explore-ends zero (t ∷ pending) g known enough = absurd (omega (arith, enough))
  explore-ends (suc fuel) (t ∷ pending) g (k, ks) enough =
      elim (Bool-cases (contains t.name g.visited)) [
        | inl seen ↦
            rw (explore-seen fuel t pending g seen)
              (explore-ends fuel pending g ks (omega (arith, enough)))
        | inr new ↦ elim (Checked-cases (expand r t)) [
          | inr (e, nope) ↦ (refused e, explore-refused fuel t pending g new e nope)
          | inl (none, nothing) ↦ rw (explore-leaf fuel t pending g new nothing) (
              explore-ends fuel pending (visit t.name g) ks
                (omega (arith, enough, left_over-visit r.canonical t.name g.visited)))
          | inl (some x, some_children) ↦
              let small = expand-IsSmall t x some_children in
              rw (explore-parent fuel t pending g new x some_children) (
                explore-ends fuel (push x.children pending) (gather x (visit t.name g))
                  (push-Known x.children pending small.is_known ks)
                  (omega (
                    arith,
                    enough,
                    small.is_short,
                    length-push x.children pending,
                    left_over-expand r.canonical t.name t g.visited k new,
                  )))
        ]
      ]

module _ (r : TaskRegistry) (ok : IsConsistent r) where
  require_task-stored :
      (task t : Task) → require_task r task ≡ accepted t → get t.name r.canonical ≡ some t
  unfolding require_task
  require_task-stored task t e = elim (Option-cases (get task.name r.canonical)) [
    | inl absent ↦ absurd (ground (arith, e, absent))
    | inr (s, found) ↦
        let is : s ≡ t = ground (arith, e, found) in
        let named : s.name ≡ task.name = ok.is_named task.name s found in
        subst (λ u. get u.name r.canonical ≡ some u) is
          (subst (λ n. get n r.canonical ≡ some s) (sym named) found)
  ]

  require_roots-Known :
      (roots : List Root) (ts : List Task) → require_roots r roots ≡ accepted ts → Known r ok ts
  unfolding require_roots require_root
  require_roots-Known [] ts e = let is : [] ≡ ts = ground (arith, e) in subst (Known r ok) is tt
  require_roots-Known (root ∷ roots) ts e =
      let (task, named, e1) = bind-accepted (require_root r root) _ ts e in
      let (rest, others, e2) = bind-accepted (require_roots r roots) _ ts e1 in
      let is : task ∷ rest ≡ ts = ground (arith, e2) in
      subst (Known r ok) is (root-Known root task named, require_roots-Known roots rest others)
    where
      root-Known :
          (root : Root) (t : Task)
          → require_root r root ≡ accepted t
          → get t.name r.canonical ≡ some t
      root-Known (by_name name) t e = require_name-Known r ok name t e
      root-Known (by_task task) t e = require_task-stored task t e

  compile_roots-ends :
      (codec : Codec) (roots : List Task)
      → Known r ok roots
      → (out : Checked CompiledPolicy) × (compile_roots codec r roots ≡ some out)
  unfolding compile_roots
  compile_roots-ends codec [] known = (refused config, refl)
  compile_roots-ends codec (t ∷ ts) known =
      elim (Bool-cases (distinct (map task_identity (t ∷ ts)))) [
        | inr twice ↦ (refused config, rw (twice, compile_roots) refl)
        | inl once ↦
            let (g, ends) =
              explore-ends r ok (explore_fuel r (t ∷ ts)) (push (t ∷ ts) []) (start (t ∷ ts))
                (push-Known r ok (t ∷ ts) [] known tt)
                (omega (arith, left_over-total r.canonical [], length-push (t ∷ ts) [])) in
            (g >>= compiled codec (t ∷ ts), rw (once, ends, compile_roots) refl)
      ]

-- Compiling ends with a policy or an exception, whatever cycles the followups of the registry make.
pub compile_continuation_policy-ends :
    (codec : Codec) (r : TaskRegistry) (roots : List Root)
    → IsConsistent r
    → (out : Checked CompiledPolicy) × (compile_continuation_policy codec r roots ≡ some out)
unfolding compile_continuation_policy
compile_continuation_policy-ends codec r roots ok =
    elim (Checked-cases (validate_followup_graph r >>= λ _. require_roots r roots)) [
      | inr (e, nope) ↦ (refused e, rw (nope, compile_continuation_policy) refl)
      | inl (ts, fine) ↦
          let (u, valid, named) = bind-accepted (validate_followup_graph r) _ ts fine in
          let (out, ends) =
            compile_roots-ends r ok codec ts (require_roots-Known r ok roots ts named) in
          (out, rw (fine, compile_continuation_policy) ends)
    ]
