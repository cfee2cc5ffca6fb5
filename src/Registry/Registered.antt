-- ===== src/Registry/Registered.antt =====
-- registry.py: what the normalised followups of a task name.
use outlabs_taskq.Prelude.{
  ◌≡◌, refl, subst, not, ◌&&◌, ◌==◌, String, Option, none, some, List, [], ◌∷◌, All, string_eq,
  pair_eq, arith, inl, inr, Bool-cases, Option-cases,
}
use outlabs_taskq.Dict.{Dict, get}
use outlabs_taskq.Protocol.{Json, Followup, text_or}
use outlabs_taskq.Registry.{
  Task, Target, TaskRegistry, Checked, accepted, refused, resolve, declared_targets, normalize,
  normalize_all, normalize_followups, with_target, with_payload, cons_checked,
}
use outlabs_taskq.Registry.Graph.{Checked-cases}

-- A followup of `parent` bears the name of a registered task, stands in its queue, and carries a
-- payload that the task's validation gave.
pub record IsRegistered (registry : TaskRegistry) (parent : Task) (f : Followup) : Type 0 where
  pub alias : String
  pub task : Task
  pub is_resolved : resolve registry alias ≡ some task
  pub has_name : task.name ≡ f.job_type
  pub has_queue : task.queue ≡ text_or f.queue parent.queue
  pub given : Json
  pub is_valid : task.validate given ≡ some f.payload

module _ (r : TaskRegistry) (parent : Task) where
  with_payload-IsRegistered :
      (target : Task) (f g : Followup) (o : Option Json)
      → resolve r f.job_type ≡ some target
      → target.queue ≡ text_or f.queue parent.queue
      → target.validate f.payload ≡ o
      → with_payload parent target (text_or f.queue parent.queue) f o ≡ accepted g
      → IsRegistered r parent g
  with_payload-IsRegistered target f g none found queue valid e = absurd cc
  with_payload-IsRegistered target f g (some payload) found queue valid e = record {
    alias = f.job_type;
    task = target;
    is_resolved = found;
    has_name = ground (arith, e);
    has_queue =
        ground (arith, e, queue, string_eq.is_exact (text_or f.queue parent.queue) parent.queue);
    given = f.payload;
    is_valid = ground (arith, e, valid);
  }

  with_target-IsRegistered :
      (target : Task) (f g : Followup) (o : Option Target)
      → resolve r f.job_type ≡ some target
      → with_target parent target (text_or f.queue parent.queue) f o ≡ accepted g
      → IsRegistered r parent g
  with_target-IsRegistered target f g none found e = absurd cc
  with_target-IsRegistered target f g (some t) found e =
      let queue = text_or f.queue parent.queue in
      elim (Bool-cases
        (target.queue == queue && not (f.workflow_member && not t.workflow_member))) [
          | inl fits ↦
              with_payload-IsRegistered target f g (target.validate f.payload) found
                ((string_eq.is_exact target.queue queue).0 (ground (arith, fits))) refl
                (ground (arith, e, fits))
          | inr misfit ↦ absurd (ground (arith, e, misfit))
        ]

  normalize-IsRegistered :
      (declared : Dict (String × String) Target) (f g : Followup)
      → normalize r parent declared f ≡ accepted g
      → IsRegistered r parent g
  unfolding normalize
  normalize-IsRegistered declared f g e = elim (Option-cases (resolve r f.job_type)) [
    | inl absent ↦ absurd (ground (arith, e, absent))
    | inr (target, found) ↦
        with_target-IsRegistered target f g
          (get (text_or f.queue parent.queue, target.name) declared) found
          (ground (arith, e, found))
  ]

  cons_checked-accepted :
      (c : Checked Followup) (cs : Checked (List Followup)) (out : List Followup)
      → cons_checked c cs ≡ accepted out
      → (g : Followup) × (gs : List Followup) × (c ≡ accepted g)
        × (cs ≡ accepted gs)
        × (g ∷ gs ≡ out)
  cons_checked-accepted (refused e) cs out is = absurd cc
  cons_checked-accepted (accepted g) (refused e) out is = absurd cc
  cons_checked-accepted (accepted g) (accepted gs) out is = (g, gs, refl, refl, ground (arith, is))

  normalize_all-IsRegistered :
      (declared : Dict (String × String) Target) (fs out : List Followup)
      → normalize_all r parent declared fs ≡ accepted out
      → All (IsRegistered r parent) out
  unfolding normalize_all
  normalize_all-IsRegistered declared [] out e =
      let same : [] ≡ out = ground (arith, e) in subst (All (IsRegistered r parent)) same tt
  normalize_all-IsRegistered declared (f ∷ fs) out e =
      let (g, gs, one, rest, same) =
        cons_checked-accepted (normalize r parent declared f) (normalize_all r parent declared fs)
          out e in
      subst (All (IsRegistered r parent)) same
        (normalize-IsRegistered declared f g one, normalize_all-IsRegistered declared fs gs rest)

  pub normalize_followups-IsRegistered :
      (fs out : List Followup)
      → normalize_followups r parent fs ≡ accepted out
      → All (IsRegistered r parent) out
  unfolding normalize_followups
  normalize_followups-IsRegistered fs out e =
      elim (Checked-cases (declared_targets r parent.targets [])) [
        | inl (declared, fine) ↦
            normalize_all-IsRegistered declared fs out (ground (arith, e, fine))
        | inr (x, nope) ↦ absurd (ground (arith, e, nope))
      ]
