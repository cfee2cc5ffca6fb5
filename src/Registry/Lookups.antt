-- ===== src/Registry/Lookups.antt =====
-- What a registration of registry.py does to the lookups.
use outlabs_taskq.Prelude.{
  ◌≡◌, refl, ◌∙◌, true, false, String, some, List, [], ◌∷◌, ◌⊎◌, inl, inr, Bool-cases, any,
  string_eq, arith, contains, All,
}
use outlabs_taskq.Dict.{Dict, get, put, get-put}
use outlabs_taskq.Registry.{
  Checked, RegistryError, accepted, refused, config, Task, TaskRegistry, add_task, collides,
  add_keys, add_tasks, register_many, resolve,
}

collides-free :
    (k : String) (ks : List String) (lookup : Dict String Task) (task : Task)
    → get k lookup ≡ some task
    → collides ks lookup ≡ false
    → contains k ks ≡ false
unfolding collides any contains
collides-free k [] lookup task e h = refl
collides-free k (i ∷ ks) lookup task e h = elim (Bool-cases (string_eq.beq i k)) [
  | inl same ↦
      let here : i ≡ k = (string_eq.is_exact i k).0 same in
      let there : get i lookup ≡ some task = rw here e in absurd (ground (arith, there))
  | inr other ↦ ground (arith, other, collides-free k ks lookup task e)
]

add_keys-other :
    (ks : List String) (task : Task) (lookup : Dict String Task) (name : String)
    → contains name ks ≡ false
    → get name (add_keys ks task lookup) ≡ get name lookup
unfolding add_keys contains
add_keys-other [] task lookup name h = refl
add_keys-other (k ∷ ks) task lookup name h =
    ground (arith, add_keys-other ks task (put k task lookup) name, get-put k name task lookup)

add_keys-own :
    (ks : List String) (task : Task) (lookup : Dict String Task) (name : String)
    → contains name ks ≡ true
    → get name (add_keys ks task lookup) ≡ some task
unfolding add_keys contains
add_keys-own [] task lookup name h = absurd cc
add_keys-own (k ∷ ks) task lookup name h = elim (Bool-cases (contains name ks)) [
  | inl later ↦ add_keys-own ks task (put k task lookup) name later
  | inr never ↦ ground (
    arith,
    never,
    add_keys-other ks task (put k task lookup) name never,
    get-put k name task lookup,
  )
]

refused_not_accepted : (r : TaskRegistry) → refused config ≡ accepted r → ⊥
refused_not_accepted r e = absurd cc

add_tasks-resolve :
    (tasks : List Task) (r more : TaskRegistry) (name : String) (task : Task)
    → get name r.lookup ≡ some task
    → add_tasks tasks r ≡ accepted more
    → get name more.lookup ≡ some task
unfolding add_tasks
add_tasks-resolve [] r more name task e h = ground (arith, e, h)
add_tasks-resolve (t ∷ tasks) r more name task e h =
    elim (Bool-cases (collides (t.name ∷ t.aliases) r.lookup)) [
      | inl taken ↦ absurd (refused_not_accepted more (ground (arith, taken, h)))
      | inr free ↦
          let apart = collides-free name (t.name ∷ t.aliases) r.lookup task e free in
          let kept = add_keys-other (t.name ∷ t.aliases) t r.lookup name apart in
          add_tasks-resolve tasks (add_task t r) more name task (kept ∙ e) (ground (arith, free, h))
    ]

-- Each key of each task that a successful registration adds resolves to that task.
add_tasks-keys :
    (tasks : List Task) (r more : TaskRegistry)
    → add_tasks tasks r ≡ accepted more
    → All
        (λ task.
          (name : String)
          → contains name (task.name ∷ task.aliases) ≡ true
          → get name more.lookup ≡ some task)
        tasks
unfolding add_tasks
add_tasks-keys [] r more h = tt
add_tasks-keys (t ∷ tasks) r more h = elim (Bool-cases (collides (t.name ∷ t.aliases) r.lookup)) [
  | inl taken ↦ absurd (refused_not_accepted more (ground (arith, taken, h)))
  | inr free ↦
      let rest : add_tasks tasks (add_task t r) ≡ accepted more = ground (arith, free, h) in
      (
        λ name own.
            add_tasks-resolve tasks (add_task t r) more name t
              (add_keys-own (t.name ∷ t.aliases) t r.lookup name own) rest,
        add_tasks-keys tasks (add_task t r) more rest,
      )
]

accepted_registry :
    (tasks : List Task) (r more : TaskRegistry)
    → add_tasks tasks r ≡ accepted more
    → register_many tasks r ≡ (accepted tt, more)
unfolding register_many
accepted_registry tasks r more e = rw (register_many, e) refl

refused_registry :
    (tasks : List Task) (r : TaskRegistry) (x : RegistryError)
    → add_tasks tasks r ≡ refused x
    → register_many tasks r ≡ (refused x, r)
unfolding register_many
refused_registry tasks r x e = rw (register_many, e) refl

added :
    (x : Checked TaskRegistry)
    → ((more : TaskRegistry) × (x ≡ accepted more)) ⊎ ((e : RegistryError) × (x ≡ refused e))
added (accepted more) = inl (more, refl)
added (refused e) = inr (e, refl)

refused_is_not : (r : Checked {0} Unit) (x : RegistryError) → r ≡ refused x → r ≡ accepted tt → ⊥
refused_is_not r x e h = absurd cc

-- A registration that is accepted makes every key of every given task, its name and its aliases,
-- resolve to that task, and every name that resolved before still resolves to the same task.
pub register_many-resolve :
    (tasks : List Task) (r : TaskRegistry)
    → (register_many tasks r).0 ≡ accepted tt
    → All
        (λ task.
          (name : String)
          → contains name (task.name ∷ task.aliases) ≡ true
          → resolve (register_many tasks r).1 name ≡ some task)
        tasks
      × ((name : String) (task : Task)
          → resolve r name ≡ some task
          → resolve (register_many tasks r).1 name ≡ some task)
unfolding resolve
register_many-resolve tasks r h = elim (added (add_tasks tasks r)) [
  | inl (more, e) ↦ rw (accepted_registry tasks r more e) (
    add_tasks-keys tasks r more e,
    λ name task known. add_tasks-resolve tasks r more name task known e,
  )
  | inr (x, e) ↦
      let same = refused_registry tasks r x e in
      absurd (refused_is_not (register_many tasks r).0 x (rw same refl) h)
]
