-- ===== src/Fake/Schedule/Lifecycle.antt =====
-- Writing, reading or retiring a schedule leaves the jobs alone.
use outlabs_taskq.Prelude.{ℕ, ◌+◌, refl, Bool, true, false, String, Option, none, some, arith}
use outlabs_taskq.Effects.{modify}
use outlabs_taskq.Effects.Keeps.{Keeps, Keeps-if}
use outlabs_taskq.Protocol.{ScheduleDefinition}
use outlabs_taskq.Fake.State.{Schedule, Reading}
use outlabs_taskq.Fake.Schedule.{
  set_schedule, create_schedule, update_schedule, versioned_update, put_at, put_schedule,
  get_schedule, retire_at, retire_schedule,
}
use outlabs_taskq.Fake.Lifecycle.{Mutates}
use outlabs_taskq.Fake.Lifecycle.Mutation.{mutation_rules, same_jobs}

set_schedule-Keeps : (name : String) (s : Schedule) → Keeps Mutates (modify (set_schedule name s))
set_schedule-Keeps name s = record { at = λ c. same_jobs c _ refl (omega arith) refl }

draw-Keeps : Keeps Mutates (modify (λ c. record c { drawn = c.drawn + 1 }))
draw-Keeps = record { at = λ c. same_jobs c _ refl (omega arith) refl }

ruleset schedule_rules = (mutation_rules, set_schedule-Keeps, draw-Keeps)

create_schedule-Keeps :
    (now : Reading) (name : String) (d : ScheduleDefinition)
    → Keeps Mutates (create_schedule now name d)
unfolding create_schedule
create_schedule-Keeps now name d = search schedule_rules depth 14

update_schedule-Keeps :
    (now : Reading) (name : String) (d : ScheduleDefinition) (s : Schedule) (b : Bool)
    → Keeps Mutates (update_schedule now name d s b)
unfolding update_schedule
update_schedule-Keeps now name d s true = search schedule_rules depth 9
update_schedule-Keeps now name d s false = search schedule_rules depth 12

versioned_update-Keeps :
    (now : Reading) (name : String) (d : ScheduleDefinition) (s : Schedule) (expected : ℕ)
    → Keeps Mutates (versioned_update now name d s expected)
unfolding versioned_update
versioned_update-Keeps now name d s expected =
    search (schedule_rules, update_schedule-Keeps, Keeps-if) depth 14

put_at-Keeps :
    (now : Reading) (name : String) (d : ScheduleDefinition) (o : Option Schedule) (e : Option ℕ)
    → Keeps Mutates (put_at now name d o e)
unfolding put_at
put_at-Keeps now name d none none = create_schedule-Keeps now name d
put_at-Keeps now name d none (some expected) = search schedule_rules
put_at-Keeps now name d (some s) none = search schedule_rules depth 9
put_at-Keeps now name d (some s) (some expected) = versioned_update-Keeps now name d s expected

pub put_schedule-Keeps :
    (now : Reading) (name : String) (d : ScheduleDefinition) (e : Option ℕ)
    → Keeps Mutates (put_schedule now name d e)
unfolding put_schedule
put_schedule-Keeps now name d e = search (schedule_rules, put_at-Keeps) depth 14

pub get_schedule-Keeps : (name : String) → Keeps Mutates (get_schedule name)
unfolding get_schedule
get_schedule-Keeps name = search schedule_rules depth 9

retire_at-Keeps : (name : String) (s : Schedule) (b : Bool) → Keeps Mutates (retire_at name s b)
unfolding retire_at
retire_at-Keeps name s true = search schedule_rules
retire_at-Keeps name s false = search schedule_rules depth 9

pub retire_schedule-Keeps :
    (name : String) (expected : ℕ) → Keeps Mutates (retire_schedule name expected)
unfolding retire_schedule
retire_schedule-Keeps name expected = search (schedule_rules, retire_at-Keeps) depth 14
