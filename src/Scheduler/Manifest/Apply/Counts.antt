-- ===== src/Scheduler/Manifest/Apply/Counts.antt =====
-- The writes of applying a manifest in scheduler.py, and what it counts.
use outlabs_taskq.Prelude.{
  ℕ, ◌+◌, ◌≡◌, ◌∙◌, refl, ap, Bool, true, false, not, ◌&&◌, beq_refl, String, Option, none, some,
  List, [], ◌∷◌, ◌++◌, length, suc, string_eq, arith, All, contains, distinct, if◌then◌else◌,
}
use outlabs_taskq.Dict.{Dict, get, keys}
use outlabs_taskq.Scheduler.Manifest.{
  ScheduleManifest, ManifestSchedule, ManagedProfile, CompiledSchedule, PlanEntry, plan_manifest,
  plan_desired, plan_drift, plan_key, compare_profile, compile_items, compile_one, is_in,
  is_retired, drift_entry, profile_actual_hash,
}
use outlabs_taskq.Scheduler.Manifest.Apply.{
  WriteOutcome, ApplyResult, no_result, count, count_drift, counted, is_drift, apply_entries,
  apply_manifest,
}

abbrev pub writes : ApplyResult → ℕ
writes r = r.created + r.updated + r.unchanged

abbrev pub with_drift : ℕ → ApplyResult → ApplyResult
with_drift n r = record r { drift = n }

abbrev pub version_of : {D : Type 0} → Option (ManagedProfile D) → Option ℕ
version_of none = none
version_of (some p) = some p.version

module _ {D S : Type 0} (hash : D → Bool → String → Option ℕ → String)
    (put : CompiledSchedule D → Option ℕ → S → WriteOutcome × S) (namespace : String)
    (current : Dict String (ManagedProfile D)) where
  -- Each schedule is put once, in their order, at the version of the owned profile; each outcome
  -- counts once.
  unfoldable pub put_all : Dict String (ManifestSchedule D) → S → ApplyResult × S
  put_all [] s = (no_result, s)
  put_all ((key, item) ∷ items) s =
      let (outcome, s1) =
        put (compile_one hash namespace key item) (version_of (get key current)) s in
      let (r, s2) = put_all items s1 in (count outcome r, s2)

  count-with_drift :
      (o : WriteOutcome) (n : ℕ) (r : ApplyResult)
      → count o (with_drift n r) ≡ with_drift n (count o r)
  count-with_drift WriteOutcome.created n r = refl
  count-with_drift WriteOutcome.updated n r = refl
  count-with_drift WriteOutcome.unchanged n r = refl

  count-writes : (o : WriteOutcome) (r : ApplyResult) → writes (count o r) ≡ writes r + 1
  count-writes WriteOutcome.created r = omega arith
  count-writes WriteOutcome.updated r = omega arith
  count-writes WriteOutcome.unchanged r = omega arith

  pub put_all-writes :
      (items : Dict String (ManifestSchedule D)) (s : S) → writes (put_all items s).0 ≡ length items
  unfolding put_all
  put_all-writes [] s = refl
  put_all-writes ((key, item) ∷ items) s =
      let (o, s1) = put (compile_one hash namespace key item) (version_of (get key current)) s in
      count-writes o (put_all items s1).0 ∙ omega (arith, put_all-writes items s1)

  plan_key-key :
      (key : String) (c : CompiledSchedule D) (o : Option (ManagedProfile D))
      → (plan_key hash key c o).key ≡ key
  unfolding plan_key
  plan_key-key key c none = refl
  plan_key-key key c (some p) = refl

  plan_key-version :
      (key : String) (c : CompiledSchedule D) (o : Option (ManagedProfile D))
      → (plan_key hash key c o).current_version ≡ version_of o
  unfolding plan_key
  plan_key-version key c none = refl
  plan_key-version key c (some p) = refl

  compare_profile-is_drift :
      (c : CompiledSchedule D) (p : ManagedProfile D) (o : Option String)
      → is_drift (compare_profile hash c p o).0 ≡ false
  unfolding compare_profile
  compare_profile-is_drift c p none = refl
  compare_profile-is_drift c p (some actual) = ground arith

  plan_key-is_drift :
      (key : String) (c : CompiledSchedule D) (o : Option (ManagedProfile D))
      → is_drift (plan_key hash key c o).action ≡ false
  unfolding plan_key
  plan_key-is_drift key c none = refl
  plan_key-is_drift key c (some p) = compare_profile-is_drift c p (profile_actual_hash hash p)

  module _ (compiled : Dict String (CompiledSchedule D)) where
    apply-put :
        (e : PlanEntry) (es : List PlanEntry) (s : S) (c : CompiledSchedule D)
        → is_drift e.action ≡ false
        → get e.key compiled ≡ some c
        → apply_entries hash put compiled (e ∷ es) s
          ≡ counted
              (count (put c e.current_version s).0)
              (apply_entries hash put compiled es (put c e.current_version s).1)
    unfolding apply_entries
    apply-put e es s c stays found = rw (stays, found, apply_entries) refl

    apply-drifts :
        (es : List PlanEntry) (s : S)
        → All (λ e. is_drift e.action ≡ true) es
        → apply_entries hash put compiled es s ≡ some (with_drift (length es) no_result, s)
    unfolding apply_entries
    apply-drifts [] s drifts = refl
    apply-drifts (e ∷ es) s (here, drifts) =
        rw (here, apply_entries)
          (ap (counted count_drift) (apply-drifts es s drifts) ∙ rw (one (length es)) refl)
      where
        one : (n : ℕ) → n + 1 ≡ suc n
        one n = omega arith

    plan_drift-drifts :
        (others : Dict String (ManagedProfile D))
        → All (λ e. is_drift e.action ≡ true) (plan_drift hash compiled others)
    unfolding plan_drift
    plan_drift-drifts [] = tt
    plan_drift-drifts ((key, p) ∷ others) =
        drift-or (not (is_in hash (get key compiled)) && not (is_retired p.state)) key p
          (plan_drift hash compiled others) (plan_drift-drifts others)
      where
        drift-or :
            (b : Bool) (key : String) (p : ManagedProfile D) (rest : List PlanEntry)
            → All (λ e. is_drift e.action ≡ true) rest
            → All
                (λ e. is_drift e.action ≡ true)
                (if b then drift_entry hash key p ∷ rest else rest)
        drift-or true key p rest drifts = (refl, drifts)
        drift-or false key p rest drifts = drifts

    -- The entries of the manifest's own schedules are put, and those of a drift are counted.
    apply-desired :
        (items : Dict String (ManifestSchedule D)) (es : List PlanEntry) (s : S)
        → All (λ kc. get kc.0 compiled ≡ some kc.1) (compile_items hash namespace items)
        → All (λ e. is_drift e.action ≡ true) es
        → apply_entries hash put compiled
            (plan_desired hash (compile_items hash namespace items) current ++ es)
            s
          ≡ some (with_drift (length es) (put_all items s).0, (put_all items s).1)
    unfolding compile_items plan_desired put_all
    apply-desired [] es s found drifts = apply-drifts es s drifts
    apply-desired ((key, item) ∷ items) es s (here, found) drifts =
        let c = compile_one hash namespace key item in
        let o = get key current in
        let e : PlanEntry = plan_key hash key c o in
        let rest = plan_desired hash (compile_items hash namespace items) current ++ es in
        let stored : get e.key compiled ≡ some c =
          ap (λ k. get k compiled) (plan_key-key key c o) ∙ here in
        let step = apply-put e rest s c (plan_key-is_drift key c o) stored in
        let (w, s1) = put c (version_of o) s in
        let (r, s2) = put_all items s1 in
        step
        ∙ ap
            (λ v.
              counted (count (put c v s).0) (apply_entries hash put compiled rest (put c v s).1))
            (plan_key-version key c o)
        ∙ ap (counted (count w)) (apply-desired items es s1 found drifts)
        ∙ ap (λ r'. some (r', s2)) (count-with_drift w (length es) r)

module _ {D : Type 0} (hash : D → Bool → String → Option ℕ → String) (namespace : String) where
  All-under :
      (k : String) (c : CompiledSchedule D) (d : Dict String (CompiledSchedule D))
      (items : Dict String (ManifestSchedule D))
      → contains k (keys items) ≡ false
      → All (λ kc. get kc.0 d ≡ some kc.1) (compile_items hash namespace items)
      → All (λ kc. get kc.0 ((k, c) ∷ d) ≡ some kc.1) (compile_items hash namespace items)
  unfolding compile_items get contains
  All-under k c d [] new all = tt
  All-under k c d ((j, x) ∷ items) new (here, all) = (
    ground (arith, here, new, string_eq.is_exact k j, string_eq.is_exact j k),
    All-under k c d items (ground (arith, new)) all,
  )

  -- In a dict each entry is what its key finds.
  All-found :
      (items : Dict String (ManifestSchedule D))
      → distinct (keys items) ≡ true
      → All
          (λ kc. get kc.0 (compile_items hash namespace items) ≡ some kc.1)
          (compile_items hash namespace items)
  unfolding compile_items get distinct
  All-found [] unique = tt
  All-found ((k, x) ∷ items) unique = (
    rw (beq_refl k) refl,
    All-under k (compile_one hash namespace k x) (compile_items hash namespace items) items
        (ground (arith, unique)) (All-found items (ground (arith, unique))),
  )

-- With keys that differ, as those of a dict do, applying a manifest fails by no KeyError. It puts
-- each of its schedules once, in their order and at the version of the owned profile, and nothing
-- else: the counts of the outcomes and the state are those of these writes, the counts add up to the
-- number of the schedules, and the drift is the number of the entries for it.
pub apply_manifest-writes :
    {D S : Type 0} (hash : D → Bool → String → Option ℕ → String)
    (put : CompiledSchedule D → Option ℕ → S → WriteOutcome × S) (manifest : ScheduleManifest D)
    (current : Dict String (ManagedProfile D)) (s : S)
    → distinct (keys manifest.schedules) ≡ true
    → let written = put_all hash put manifest.namespace current manifest.schedules s in
      let drifts =
        plan_drift hash (compile_items hash manifest.namespace manifest.schedules) current in
      (apply_manifest hash put manifest current s
        ≡ some (with_drift (length drifts) written.0, written.1))
      × (writes written.0 ≡ length manifest.schedules)
unfolding apply_manifest plan_manifest
apply_manifest-writes hash put manifest current s unique =
    let compiled = compile_items hash manifest.namespace manifest.schedules in
    (
      apply-desired hash put manifest.namespace current compiled manifest.schedules
          (plan_drift hash compiled current) s
          (All-found hash manifest.namespace manifest.schedules unique)
          (plan_drift-drifts hash put manifest.namespace current compiled current),
      put_all-writes hash put manifest.namespace current manifest.schedules s,
    )
