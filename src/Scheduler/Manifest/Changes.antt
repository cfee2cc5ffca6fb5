-- ===== src/Scheduler/Manifest/Changes.antt =====
-- When a plan of scheduler.py has nothing to change.
use outlabs_taskq.Prelude.{
  ℕ, ◌+◌, ◌≡◌, ◌↔◌, refl, Bool, true, false, not, ◌&&◌, ◌==◌, String, Option, none, some, List, [],
  ◌∷◌, ◌++◌, string_eq, arith,
}
use outlabs_taskq.Dict.{Dict, get}
use outlabs_taskq.Scheduler.Manifest.{
  ManifestSchedule, ScheduleManifest, ManagedProfile, CompiledSchedule, PlanEntry, compile_one,
  compile_items, profile_actual_hash, compare_profile, plan_key, plan_desired, plan_drift,
  plan_manifest, changes, is_change,
}

changes-append : (es fs : List PlanEntry) → changes (es ++ fs) ≡ changes es + changes fs
unfolding changes
changes-append [] fs = omega arith
changes-append (e ∷ es) fs = ground (arith, changes-append es fs)

module _ {D : Type 0} (hash : D → Bool → String → Option ℕ → String) where
  -- The live definition, the stored hash, the wanted hash and the display name agree.
  abbrev pub agrees : CompiledSchedule D → ManagedProfile D → Option String → Bool
  agrees c p none = false
  agrees c p (some actual) =
      p.definition_hash == actual
      && (c.definition_hash == actual && c.display_name == p.display_name)

  abbrev pub in_sync : CompiledSchedule D → Option (ManagedProfile D) → Bool
  in_sync c none = false
  in_sync c (some p) = agrees c p (profile_actual_hash hash p)

  unfoldable pub all_in_sync :
      String → Dict String (ManifestSchedule D) → Dict String (ManagedProfile D) → Bool
  unfolding compile_one profile_actual_hash get
  all_in_sync namespace [] current = true
  all_in_sync namespace ((key, item) ∷ items) current =
      in_sync (compile_one hash namespace key item) (get key current)
      && all_in_sync namespace items current

  compare_profile-agrees :
      (c : CompiledSchedule D) (p : ManagedProfile D) (actual : Option String)
      → is_change (compare_profile hash c p actual).0 ≡ not (agrees c p actual)
  unfolding compare_profile
  compare_profile-agrees c p none = refl
  compare_profile-agrees c p (some actual) = ground arith

  plan_key-in_sync :
      (key : String) (c : CompiledSchedule D) (o : Option (ManagedProfile D))
      → is_change (plan_key hash key c o).action ≡ not (in_sync c o)
  unfolding plan_key
  plan_key-in_sync key c none = refl
  plan_key-in_sync key c (some p) = compare_profile-agrees c p (profile_actual_hash hash p)

  plan_drift-changes :
      (desired : Dict String (CompiledSchedule D)) (current : Dict String (ManagedProfile D))
      → changes (plan_drift hash desired current) ≡ 0
  unfolding plan_drift changes
  plan_drift-changes desired [] = refl
  plan_drift-changes desired ((key, p) ∷ current) =
      ground (arith, plan_drift-changes desired current)

  plan_desired-changes :
      (namespace : String) (items : Dict String (ManifestSchedule D))
      (current : Dict String (ManagedProfile D))
      → (changes (plan_desired hash (compile_items hash namespace items) current) ≡ 0)
        ↔ (all_in_sync namespace items current ≡ true)
  unfolding plan_desired compile_items changes all_in_sync
  plan_desired-changes namespace [] current = ground arith
  plan_desired-changes namespace ((key, item) ∷ items) current = ground (
    arith,
    plan_desired-changes namespace items current,
    plan_key-in_sync key (compile_one hash namespace key item) (get key current),
  )

  -- A plan has no changes just if each schedule of the manifest has an owned profile whose live hash
  -- agrees with its stored hash and with the wanted one, under the wanted display name.
  pub plan_manifest-changes :
      (manifest : ScheduleManifest D) (current : Dict String (ManagedProfile D))
      → (changes (plan_manifest hash manifest current) ≡ 0)
        ↔ (all_in_sync manifest.namespace manifest.schedules current ≡ true)
  unfolding plan_manifest
  plan_manifest-changes manifest current = ground (
    arith,
    changes-append
        (plan_desired hash (compile_items hash manifest.namespace manifest.schedules) current)
        (plan_drift hash (compile_items hash manifest.namespace manifest.schedules) current),
    plan_drift-changes (compile_items hash manifest.namespace manifest.schedules) current,
    plan_desired-changes manifest.namespace manifest.schedules current,
  )
