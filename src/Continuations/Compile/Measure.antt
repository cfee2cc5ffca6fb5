-- ===== src/Continuations/Compile/Measure.antt =====
-- What the loop of the compiler in continuations.py still has before it.
use outlabs_taskq.Prelude.{
  ℕ, ◌+◌, ◌≤◌, ◌≡◌, sym, ap, subst, true, false, String, some, List, [], ◌∷◌, contains,
  if◌then◌else◌, length, string_eq, pair_eq, arith, inl, inr, Bool-cases,
}
use outlabs_taskq.Dict.{Dict, get, values}
use outlabs_taskq.Registry.{Task, Target, TaskRegistry, accepted, require_name}
use outlabs_taskq.Continuations.Runnable.{bind-accepted}
use outlabs_taskq.Continuations.Compile.{push, member_targets, require_children, total_targets}

-- What the tasks that were not visited may still add.
unfoldable pub left_over : Dict String Task → List String → ℕ
unfolding contains
left_over [] visited = 0
left_over ((name, t) ∷ d) visited =
    let rest = left_over d visited in
    if contains name visited then rest else length t.targets + rest

pub left_over-visit :
    (d : Dict String Task) (name : String) (visited : List String)
    → left_over d (name ∷ visited) ≤ left_over d visited
unfolding left_over contains
left_over-visit [] name visited = omega arith
left_over-visit ((k, t) ∷ d) name visited = ground (arith, left_over-visit d name visited)

pub left_over-expand :
    (d : Dict String Task) (name : String) (t : Task) (visited : List String)
    → get name d ≡ some t
    → contains name visited ≡ false
    → left_over d (name ∷ visited) + length t.targets ≤ left_over d visited
unfolding left_over contains get
left_over-expand [] name t visited found new = absurd cc
left_over-expand ((k, s) ∷ d) name t visited found new = elim (Bool-cases (string_eq.beq k name)) [
  | inl same ↦
      let here : k ≡ name = (string_eq.is_exact k name).0 same in
      let is : s ≡ t = ground (arith, found, same) in
      let fresh : contains k visited ≡ false =
        subst (λ n. contains n visited ≡ false) (sym here) new in
      let back : string_eq.beq name k ≡ true = (string_eq.is_exact name k).1 (sym here) in
      let sizes : length s.targets ≡ length t.targets = ap (λ u. length u.targets) is in
      ground (arith, fresh, back, sizes, left_over-visit d name visited)
  | inr other ↦ ground (
    arith,
    string_eq.is_exact k name,
    string_eq.is_exact name k,
    other,
    new,
    left_over-expand d name t visited (ground (arith, found, other)) new,
  )
]

pub left_over-total :
    (d : Dict String Task) (visited : List String) → left_over d visited ≤ total_targets (values d)
unfolding left_over total_targets
left_over-total [] visited = omega arith
left_over-total ((k, t) ∷ d) visited = ground (arith, left_over-total d visited)

pub length-members : (ts : List Target) → length (member_targets ts) ≤ length ts
unfolding member_targets
length-members [] = omega arith
length-members (t ∷ ts) = ground (arith, length-members ts)

pub length-push : (cs pending : List Task) → length (push cs pending) ≡ length cs + length pending
unfolding push
length-push [] pending = omega arith
length-push (c ∷ cs) pending = omega (arith, length-push cs (c ∷ pending))

pub length-children :
    (r : TaskRegistry) (ts : List Target) (children : List Task)
    → require_children r ts ≡ accepted children
    → length children ≡ length ts
unfolding require_children
length-children r [] children e = ground (arith, e)
length-children r (t ∷ ts) children e =
    let (child, named, e1) = bind-accepted (require_name r t.job_type) _ children e in
    let (rest, others, e2) = bind-accepted (require_children r ts) _ children e1 in
    ground (arith, e2, length-children r ts rest others)
