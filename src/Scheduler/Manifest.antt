-- ===== src/Scheduler/Manifest.antt =====
-- scheduler.py: the manifests of schedules, compiled and compared with what a source owns.
pub mod Apply
pub mod Changes
use outlabs_taskq.Prelude.{
  ℕ, ◌+◌, Bool, true, false, not, ◌&&◌, ◌==◌, String, Option, none, some, List, [], ◌∷◌, ◌++◌,
  if◌then◌else◌, string_eq, option_eq, nat_eq,
}
use outlabs_taskq.Dict.{Dict, get}
use Prim.Native.String.{◌++◌ as join}

-- ManifestSchedule: `definition` is its target, recurrence and catch-up, of a type of their own.
pub record ManifestSchedule {ℓ} (D : Type ℓ) : Type ℓ where
  pub definition : D
  pub is_paused : Bool
  pub overlap : String
  pub max_lateness_seconds : Option ℕ
  pub display_name : Option String

pub record ScheduleManifest {ℓ} (D : Type ℓ) : Type ℓ where
  pub namespace : String
  pub source : String
  pub schedules : Dict String (ManifestSchedule D)

pub data ProfileState : Type 0 where
  active paused retired : ProfileState

-- ManagedScheduleProfile; `definition` is `none` where no ScheduleDefinition accepts it.
pub record ManagedProfile {ℓ} (D : Type ℓ) : Type ℓ where
  pub name : String
  pub definition : Option D
  pub state : ProfileState
  pub overlap_policy : String
  pub max_lateness_seconds : Option ℕ
  pub display_name : String
  pub definition_hash : String
  pub version : ℕ

pub record CompiledSchedule {ℓ} (D : Type ℓ) : Type ℓ where
  pub name : String
  pub display_name : String
  pub definition : D
  pub is_paused : Bool
  pub definition_hash : String
  pub overlap_policy : String
  pub max_lateness_seconds : Option ℕ

pub data PlanAction : Type 0 where
  create update unchanged drift : PlanAction

-- ManifestPlanEntry
pub record PlanEntry : Type 0 where
  pub key : String
  pub name : String
  pub action : PlanAction
  pub current_version : Option ℕ
  pub reason : Option String

abbrev or_text : Option String → String → String
or_text none d = d
or_text (some s) d = s

abbrev is_pause : ProfileState → Bool
is_pause paused = true
is_pause _ = false

abbrev pub is_retired : ProfileState → Bool
is_retired retired = true
is_retired _ = false

-- `hash` is _canonical_hash, the SHA-256 of a definition, its pause, its overlap and its lateness.
module _ {ℓ} {D : Type ℓ} (hash : D → Bool → String → Option ℕ → String) where
  unfoldable pub compile_one : String → String → ManifestSchedule D → CompiledSchedule D
  compile_one namespace key item = record {
    name = join namespace (join "." key);
    display_name = or_text item.display_name key;
    definition = item.definition;
    is_paused = item.is_paused;
    definition_hash = hash item.definition item.is_paused item.overlap item.max_lateness_seconds;
    overlap_policy = item.overlap;
    max_lateness_seconds = item.max_lateness_seconds;
  }

  -- compile_manifest; the schedules of the manifest stand in the order of their keys
  unfoldable pub compile_items :
      String → Dict String (ManifestSchedule D) → Dict String (CompiledSchedule D)
  unfolding compile_one
  compile_items namespace [] = []
  compile_items namespace ((key, item) ∷ items) =
      (key, compile_one namespace key item) ∷ compile_items namespace items

  -- _profile_actual_hash
  unfoldable pub profile_actual_hash : ManagedProfile D → Option String
  profile_actual_hash p = elim p.definition [
    | none ↦ none
    | some definition ↦
        some (hash definition (is_pause p.state) p.overlap_policy p.max_lateness_seconds)
  ]

  -- The action for a profile and the reason, with its live hash.
  unfoldable pub compare_profile :
      CompiledSchedule D → ManagedProfile D → Option String → PlanAction × Option String
  compare_profile c p none = (update, some "live definition is invalid")
  compare_profile c p (some actual_hash) =
      if not (p.definition_hash == actual_hash)
      then (update, some "stored definition hash does not match live definition")
      else if not (c.definition_hash == actual_hash)
      then (update, some "desired definition differs")
      else if not (c.display_name == p.display_name)
      then (update, some "display name differs")
      else (unchanged, none)

  unfoldable pub plan_key : String → CompiledSchedule D → Option (ManagedProfile D) → PlanEntry
  unfolding compare_profile profile_actual_hash
  plan_key key c none = record {
    key = key;
    name = c.name;
    action = create;
    current_version = none;
    reason = none;
  }
  plan_key key c (some p) =
      let (action, reason) = compare_profile c p (profile_actual_hash p) in
      record {
        key = key;
        name = c.name;
        action = action;
        current_version = some p.version;
        reason = reason;
      }

  unfoldable pub plan_desired :
      Dict String (CompiledSchedule D) → Dict String (ManagedProfile D) → List PlanEntry
  unfolding plan_key get
  plan_desired [] current = []
  plan_desired ((key, c) ∷ desired) current =
      plan_key key c (get key current) ∷ plan_desired desired current

  abbrev pub is_in {ℓ'} : {A : Type ℓ'} → Option A → Bool
  is_in none = false
  is_in (some a) = true

  abbrev pub drift_entry : String → ManagedProfile D → PlanEntry
  drift_entry key p = record {
    key = key;
    name = p.name;
    action = drift;
    current_version = some p.version;
    reason = some "owned key is absent from the manifest; explicit retirement required";
  }

  -- The owned keys in their order, which the manifest does not name.
  unfoldable pub plan_drift :
      Dict String (CompiledSchedule D) → Dict String (ManagedProfile D) → List PlanEntry
  unfolding get
  plan_drift desired [] = []
  plan_drift desired ((key, p) ∷ current) =
      let rest = plan_drift desired current in
      if not (is_in (get key desired)) && not (is_retired p.state)
      then drift_entry key p ∷ rest
      else rest

  -- The entries of plan_manifest, from the dict of _current_owned in the order of its keys.
  unfoldable pub plan_manifest :
      ScheduleManifest D → Dict String (ManagedProfile D) → List PlanEntry
  unfolding compile_items plan_desired plan_drift
  plan_manifest manifest current =
      let desired = compile_items manifest.namespace manifest.schedules in
      plan_desired desired current ++ plan_drift desired current

abbrev pub is_change : PlanAction → Bool
is_change create = true
is_change update = true
is_change _ = false

-- ManifestPlan.changes
unfoldable pub changes : List PlanEntry → ℕ
changes [] = 0
changes (e ∷ es) = let rest = changes es in if is_change e.action then rest + 1 else rest
