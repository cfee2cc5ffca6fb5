-- ===== src/Scheduler/Manifest/Apply.antt =====
-- scheduler.py: a plan is applied through the transport's `put_managed_schedule`.
pub mod Counts
use outlabs_taskq.Prelude.{
  ℕ, ◌+◌, Bool, true, false, String, Option, none, some, List, [], ◌∷◌, string_eq,
}
use outlabs_taskq.Dict.{Dict, get}
use outlabs_taskq.Scheduler.Manifest.{
  ScheduleManifest, ManagedProfile, CompiledSchedule, PlanEntry, PlanAction, drift, plan_manifest,
  compile_items,
}

-- The outcome of a write, which names one of the counts.
pub data WriteOutcome : Type 0 where
  created updated unchanged : WriteOutcome

-- ManifestApplyResult
pub record ApplyResult : Type 0 where
  pub created : ℕ
  pub updated : ℕ
  pub unchanged : ℕ
  pub drift : ℕ

abbrev pub no_result : ApplyResult
no_result = record { created = 0; updated = 0; unchanged = 0; drift = 0 }

abbrev pub count : WriteOutcome → ApplyResult → ApplyResult
count created r = record r { created = r.created + 1 }
count updated r = record r { updated = r.updated + 1 }
count unchanged r = record r { unchanged = r.unchanged + 1 }

abbrev pub count_drift : ApplyResult → ApplyResult
count_drift r = record r { drift = r.drift + 1 }

abbrev pub is_drift : PlanAction → Bool
is_drift drift = true
is_drift _ = false

abbrev pub counted {ℓ} :
    {S : Type ℓ} → (ApplyResult → ApplyResult) → Option (ApplyResult × S) → Option (ApplyResult × S)
counted f none = none
counted f (some (r, s)) = some (f r, s)

-- `put` writes a schedule at the version that the plan has seen; `none` is the KeyError of
-- `compiled[entry.key]`.
module _ {ℓ} {D S : Type ℓ} (hash : D → Bool → String → Option ℕ → String)
    (put : CompiledSchedule D → Option ℕ → S → WriteOutcome × S) where
  unfoldable pub apply_entries :
      Dict String (CompiledSchedule D) → List PlanEntry → S → Option (ApplyResult × S)
  unfolding get
  apply_entries compiled [] s = some (no_result, s)
  apply_entries compiled (e ∷ es) s = elim (is_drift e.action) [
    | true ↦ counted count_drift (apply_entries compiled es s)
    | false ↦ elim (get e.key compiled) [
      | none ↦ none
      | some item ↦
          let (outcome, s') = put item e.current_version s in
          counted (count outcome) (apply_entries compiled es s')
    ]
  ]

  -- `current` is what plan_manifest has read.
  unfoldable pub apply_manifest :
      ScheduleManifest D → Dict String (ManagedProfile D) → S → Option (ApplyResult × S)
  unfolding apply_entries plan_manifest compile_items
  apply_manifest manifest current s =
      apply_entries (compile_items hash manifest.namespace manifest.schedules)
        (plan_manifest hash manifest current) s
