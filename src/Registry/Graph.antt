-- ===== src/Registry/Graph.antt =====
-- registry.py: the check of the declared followups before a worker starts.
use outlabs_taskq.Prelude.{
  ◌≡◌, ◌∙◌, refl, sym, subst, false, not, ◌||◌, ◌==◌, String, Option, none, some, List, [], ◌∷◌,
  contains, if◌then◌else◌, string_eq, pair_eq, arith, ◌⊎◌, inl, inr, Bool-cases, Option-cases,
}
use outlabs_taskq.Dict.{Dict, get, put, get-put, values}
use outlabs_taskq.Protocol.{Followup, text_or}
use outlabs_taskq.Registry.{
  Task, Target, TaskRegistry, Checked, RegistryError, accepted, refused, config, invalid_followup,
  resolve, declared_targets, normalize, normalize_all, normalize_followups, with_target, is_given,
}

-- The loop over the declared targets of one task.
unfoldable pub check_declared :
    TaskRegistry → List Target → List (String × String) → Checked {0} Unit
unfolding resolve contains
check_declared r [] identities = accepted tt
check_declared r (t ∷ ts) identities = elim (resolve r t.job_type) [
  | none ↦ refused config
  | some child ↦
      let rest = check_declared r ts ((t.queue, child.name) ∷ identities) in
      if not (child.queue == t.queue) || contains (t.queue, child.name) identities
      then refused config
      else rest
]

unfoldable pub check_tasks : TaskRegistry → List Task → Checked {0} Unit
unfolding check_declared
check_tasks r [] = accepted tt
check_tasks r (task ∷ tasks) = elim (check_declared r task.targets []) [
  | refused e ↦ refused e
  | accepted u ↦ check_tasks r tasks
]

unfoldable pub validate_followup_graph : TaskRegistry → Checked {0} Unit
unfolding check_tasks
validate_followup_graph r = check_tasks r (values r.canonical)

-- Both loops have seen the same identities.
IsSame : List (String × String) → Dict (String × String) Target → Type 0
IsSame identities declared =
    (i : String × String) → is_given (get i declared) ≡ contains i identities

IsSame-next :
    (i : String × String) (t : Target) (identities : List (String × String))
    (declared : Dict (String × String) Target)
    → IsSame identities declared
    → IsSame (i ∷ identities) (put i t declared)
unfolding contains IsSame
IsSame-next i t identities declared same j = elim (Bool-cases (pair_eq.beq i j)) [
  | inl here ↦ rw (get-put, here) refl
  | inr other ↦ rw (get-put, other) (same j)
]

module _ (r : TaskRegistry) (t : Target) (ts : List Target) (child : Task)
    (found : resolve r t.job_type ≡ some child) where
  check_declared-next :
      (identities : List (String × String))
      → check_declared r (t ∷ ts) identities ≡ accepted tt
      → (contains (t.queue, child.name) identities ≡ false)
        × (check_declared r ts ((t.queue, child.name) ∷ identities) ≡ accepted tt)
  unfolding check_declared
  check_declared-next identities e = ground (arith, e, found)

  declared_targets-next :
      (declared : Dict (String × String) Target)
      → is_given (get (t.queue, child.name) declared) ≡ false
      → declared_targets r (t ∷ ts) declared
        ≡ declared_targets r ts (put (t.queue, child.name) t declared)
  unfolding declared_targets
  declared_targets-next declared new = rw (found, new, declared_targets) refl

-- What the check accepts, the loop of normalize_followups accepts.
declared_targets-accepted :
    (r : TaskRegistry) (ts : List Target) (identities : List (String × String))
    (declared : Dict (String × String) Target)
    → IsSame identities declared
    → check_declared r ts identities ≡ accepted tt
    → (out : Dict (String × String) Target) × (declared_targets r ts declared ≡ accepted out)
unfolding check_declared declared_targets IsSame
declared_targets-accepted r [] identities declared same e = (declared, refl)
declared_targets-accepted r (t ∷ ts) identities declared same e =
    elim (Option-cases (resolve r t.job_type)) [
      | inl absent ↦ absurd (ground (arith, e, absent))
      | inr (child, found) ↦
          let i : String × String = (t.queue, child.name) in
          let (new, e1) = check_declared-next r t ts child found identities e in
          let (out, is) =
            declared_targets-accepted r ts (i ∷ identities) (put i t declared)
              (IsSame-next i t identities declared same) e1 in
          (out, declared_targets-next r t ts child found declared (same i ∙ new) ∙ is)
    ]

pub Checked-cases {ℓ} :
    {A : Type ℓ} (m : Checked A)
    → ((a : A) × (m ≡ accepted a)) ⊎ ((e : RegistryError) × (m ≡ refused e))
Checked-cases (accepted a) = inl (a, refl)
Checked-cases (refused e) = inr (e, refl)

check_tasks-declared :
    (r : TaskRegistry) (d : Dict String Task) (name : String) (task : Task)
    → check_tasks r (values d) ≡ accepted tt
    → get name d ≡ some task
    → check_declared r task.targets [] ≡ accepted tt
unfolding check_tasks get
check_tasks-declared r [] name task e found = absurd cc
check_tasks-declared r ((k, first) ∷ d) name task e found =
    elim (Checked-cases (check_declared r first.targets [])) [
      | inr (error, nope) ↦ absurd (ground (arith, e, nope))
      | inl (u, fine) ↦ elim (Bool-cases (string_eq.beq k name)) [
        | inl same ↦
            let is : first ≡ task = ground (arith, found, same) in
            subst (λ s. check_declared r s.targets [] ≡ accepted tt) is fine
        | inr other ↦
            check_tasks-declared r d name task (ground (arith, e, fine))
              (ground (arith, found, other))
      ]
    ]

with_target-refused :
    (parent target : Task) (queue : String) (f : Followup) (o : Option Target)
    (error : RegistryError)
    → with_target parent target queue f o ≡ refused error
    → error ≡ invalid_followup
with_target-refused parent target queue f none error e = ground (arith, e)
with_target-refused parent target queue f (some declaration) error e = ground (arith, e)

-- A followup is never refused for a misconfigured registry.
normalize-refused :
    (r : TaskRegistry) (parent : Task) (declared : Dict (String × String) Target) (f : Followup)
    (error : RegistryError)
    → normalize r parent declared f ≡ refused error
    → error ≡ invalid_followup
unfolding normalize
normalize-refused r parent declared f error e = elim (Option-cases (resolve r f.job_type)) [
  | inl absent ↦ ground (arith, e, absent)
  | inr (target, found) ↦
      let queue : String = text_or f.queue parent.queue in
      with_target-refused parent target queue f (get (queue, target.name) declared) error
        (ground (arith, e, found))
]

normalize_all-refused :
    (r : TaskRegistry) (parent : Task) (declared : Dict (String × String) Target)
    (fs : List Followup) (error : RegistryError)
    → normalize_all r parent declared fs ≡ refused error
    → error ≡ invalid_followup
unfolding normalize_all
normalize_all-refused r parent declared [] error e = absurd cc
normalize_all-refused r parent declared (f ∷ fs) error e =
    elim (Checked-cases (normalize r parent declared f)) [
      | inr (first, nope) ↦
          let is : first ≡ error = ground (arith, e, nope) in
          sym is ∙ normalize-refused r parent declared f first nope
      | inl (g, fine) ↦ elim (Checked-cases (normalize_all r parent declared fs)) [
        | inr (later, nope) ↦
            let is : later ≡ error = ground (arith, e, fine, nope) in
            sym is ∙ normalize_all-refused r parent declared fs later nope
        | inl (gs, all_fine) ↦ absurd (ground (arith, e, fine, all_fine))
      ]
    ]

-- After the check of the graph, the followups of a registered task are refused for the followups
-- alone, never for the registry.
pub normalize_followups-refused :
    (r : TaskRegistry) (parent : Task) (fs : List Followup) (error : RegistryError)
    → validate_followup_graph r ≡ accepted tt
    → get parent.name r.canonical ≡ some parent
    → normalize_followups r parent fs ≡ refused error
    → error ≡ invalid_followup
unfolding validate_followup_graph normalize_followups IsSame get contains
normalize_followups-refused r parent fs error valid known e =
    let (declared, is) =
      declared_targets-accepted r parent.targets [] [] (λ i. refl)
        (check_tasks-declared r r.canonical parent.name parent valid known) in
    normalize_all-refused r parent declared fs error (ground (arith, e, is))
