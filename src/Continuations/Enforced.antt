-- ===== src/Continuations/Enforced.antt =====
-- continuations.py: what an accepted list of followups says.
use outlabs_taskq.Prelude.{
  ◌≡◌, refl, subst, true, some, List, [], ◌∷◌, contains, arith, string_eq, pair_eq, Bool-cases,
  Option-cases, inl, inr, All,
}
use outlabs_taskq.Protocol.{Followup}
use outlabs_taskq.Registry.{Task, TaskRegistry, accepted}
use outlabs_taskq.Continuations.{
  PolicyParent, CompiledPolicy, Codec, Identity, validate_compiled, find_parent, check_parents,
  members, allowed_edges, allowed_of, followup_identity, all_allowed, enforce, checked_members,
}
use outlabs_taskq.Continuations.Runnable.{
  IsRunnable, check_parents-found, check_parent-IsRunnable, validate-parents,
}

-- An identity that a validated policy allows is runnable.
allowed_of-IsRunnable :
    (registry : TaskRegistry) (ps : List PolicyParent) (i j : Identity)
    → check_parents registry ps ≡ accepted tt
    → contains j (allowed_of (find_parent i ps)) ≡ true
    → IsRunnable registry j
unfolding contains
allowed_of-IsRunnable registry ps i j checked inside = elim (Option-cases (find_parent i ps)) [
  | inl absent ↦ absurd (ground (arith, inside, absent))
  | inr (p, found) ↦
      check_parent-IsRunnable registry p tt (check_parents-found registry ps tt i p checked found) j
        (subst (λ o. contains j (allowed_of o) ≡ true) found inside)
]

all_allowed-IsRunnable :
    (registry : TaskRegistry) (parent : Task) (policy : CompiledPolicy) (fs : List Followup)
    → check_parents registry policy.manifest.parents ≡ accepted tt
    → all_allowed parent (allowed_edges parent policy) fs ≡ true
    → All (λ f. IsRunnable registry (followup_identity parent f)) fs
unfolding all_allowed allowed_edges
all_allowed-IsRunnable registry parent policy [] checked fine = tt
all_allowed-IsRunnable registry parent policy (f ∷ fs) checked fine = (
  allowed_of-IsRunnable registry policy.manifest.parents (parent.queue, parent.name)
      (followup_identity parent f) checked (ground (arith, fine)),
  all_allowed-IsRunnable registry parent policy fs checked (ground (arith, fine)),
)

enforced :
    (parent : Task) (policy : CompiledPolicy) (fs ms out : List Followup)
    → checked_members parent fs (some policy) ms ≡ accepted out
    → (out ≡ fs) × (all_allowed parent (allowed_edges parent policy) ms ≡ true)
unfolding all_allowed
enforced parent policy fs [] out e = (ground (arith, e), refl)
enforced parent policy fs (m ∷ ms) out e =
    elim (Bool-cases (all_allowed parent (allowed_edges parent policy) (m ∷ ms))) [
      | inl fine ↦ (ground (arith, e, fine), fine)
      | inr wrong ↦ absurd (ground (arith, e, wrong))
    ]

-- Followups that a validated policy lets through come back unchanged, and each member among them
-- names a task that the registry resolves under that name, in the queue where it will stand.
pub enforce-IsRunnable :
    (codec : Codec) (registry : TaskRegistry) (parent : Task) (policy : CompiledPolicy)
    (fs out : List Followup)
    → validate_compiled codec registry policy ≡ accepted tt
    → enforce parent fs (some policy) ≡ accepted out
    → (out ≡ fs) × All (λ f. IsRunnable registry (followup_identity parent f)) (members fs)
unfolding enforce
enforce-IsRunnable codec registry parent policy fs out valid e =
    let (same, fine) = enforced parent policy fs (members fs) out e in
    (
      same,
      all_allowed-IsRunnable registry parent policy (members fs)
          (validate-parents codec registry policy valid) fine,
    )
