-- ===== src/Fake/Schedule/Versions.antt =====
-- Optimistic concurrency of `put_schedule` and `retire_schedule` in testing.py.
use outlabs_taskq.Prelude.{
  ℕ, ◌+◌, ◌≡◌, true, false, String, none, some, arith, nat_eq, string_eq, contains, nat_beq_refl,
  Bool-cases, inl, inr,
}
use outlabs_taskq.Dict.{get, put, get-put_self}
use outlabs_taskq.Effects.{raised, conflict}
use outlabs_taskq.Protocol.{ScheduleDefinition, ScheduleState}
use outlabs_taskq.Fake.State.{Schedule, Client, Reading}
use outlabs_taskq.Fake.Schedule.{
  put_schedule, put_at, versioned_update, update_schedule, same_definition, is_pause_only,
  redefined, retire_schedule, retire_at,
}

-- The client is open and the schedule is stored and active. A caller retires it at its current
-- version. Then every other caller who still expects that version is refused with the new version,
-- which is one more, and changes nothing, whether it writes a definition, for a queue that is
-- known, or retires.
pub retire-wins :
    (now : Reading) (name : String) (d : ScheduleDefinition) (c : Client) (s : Schedule)
    → c.closed ≡ false
    → get name c.schedules ≡ some s
    → s.state ≡ ScheduleState.active
    → contains d.target.queue c.known_queues ≡ true
    → let after = (retire_schedule name s.version c).1 in
      let refused = raised (conflict "schedule_version_conflict" (some (s.version + 1))) in
      (put_schedule now name d (some s.version) after ≡ (refused, after))
      × (retire_schedule name s.version after ≡ (refused, after))
unfolding put_schedule put_at versioned_update retire_schedule retire_at
retire-wins now name d c s active found state known =
    let gone = record s {
      state = ScheduleState.retired;
      version = s.version + 1;
      token = none;
      claim_as_of = none;
      claim_expires_at = none;
      last_action_token = none;
      last_action = none;
    } in
    let kept = get-put_self name gone c.schedules in ground (arith, kept, nat_beq_refl s.version)

-- The client is open, the schedule is stored and active, the clock can be read, and the two
-- definitions name known queues. A caller writes another definition at the current version. Then
-- every other caller who still expects that version is refused with the new version, which is one
-- more, and changes nothing: no write is lost unseen.
pub put-wins :
    (now : ℕ) (later : Reading) (name : String) (d e : ScheduleDefinition) (c : Client)
    (s : Schedule)
    → c.closed ≡ false
    → get name c.schedules ≡ some s
    → s.state ≡ ScheduleState.active
    → contains d.target.queue c.known_queues ≡ true
    → contains e.target.queue c.known_queues ≡ true
    → same_definition s.definition d ≡ false
    → let after = (put_schedule (some now) name d (some s.version) c).1 in
      put_schedule later name e (some s.version) after
      ≡ (raised (conflict "schedule_version_conflict" (some (s.version + 1))), after)
unfolding put_schedule put_at versioned_update update_schedule
put-wins now later name d e c s active found state known known' other =
    elim (Bool-cases (is_pause_only s d)) [
      | inl pause ↦ ground (arith, get-put_self name (redefined d s) c.schedules)
      | inr full ↦
          let restarted = record (redefined d s) { initialized = false } in
          let kept = get-put_self name (record restarted { next_fire_at = now }) in
          ground (arith, kept (put name restarted c.schedules))
    ]
