-- ===== src/Worker/Slots.antt =====
-- WorkerSupervisor of worker.py: the slots for running attempts.
pub mod Keys
pub mod Refines
use outlabs_taskq.Prelude.{
  false, true, ℕ, ◌-◌, ◌≤◌, Bool, true, ◌||◌, ◌==◌, List, [], ◌∷◌, ◌++◌, if◌then◌else◌, nat_eq,
  pair_eq, arith, contains, length, length-append, remove_first, inl, inr, Bool-cases,
}
use outlabs_taskq.Effects.{Action, ok, raised, config}

-- `active` holds the keys of `_active`, each a job with an attempt. `config` stands for the
-- WorkerCapacityError that is raised.
pub record Supervisor : Type 0 where
  pub concurrency : ℕ
  pub accepting : Bool
  pub stopping : Bool
  pub stopped : Bool
  pub active : List (ℕ × ℕ)

-- max(0, ...), which the subtraction gives
unfoldable pub free_slots : Supervisor → ℕ
free_slots s = s.concurrency - length s.active

unfoldable pub available_slots : Supervisor → ℕ
unfolding free_slots
available_slots s = if s.accepting then free_slots s else 0

unfoldable pub start : Action Supervisor Unit
start s =
    if s.stopping || s.stopped then (raised config, s) else (ok tt, record s { accepting = true })

-- _reserve: the key is entered, and a task is created
unfoldable pub reserve : ℕ × ℕ → Action Supervisor Unit
unfolding free_slots
reserve key s =
    if contains key s.active || free_slots s == 0
    then (raised config, s)
    else (ok tt, record s { active = s.active ++ key ∷ [] })

unfoldable pub submit : ℕ × ℕ → Action Supervisor Unit
submit key s = if s.accepting then reserve key s else (raised config, s)

unfoldable pub run_job : ℕ × ℕ → Action Supervisor Unit
run_job key s = if s.stopping || s.stopped then (raised config, s) else reserve key s

-- The end of the task of an attempt takes its key out.
unfoldable pub finish : ℕ × ℕ → Action Supervisor Unit
finish key s = (ok tt, record s { active = remove_first key s.active })

-- _begin_soft_stop, as far as the slots read it
unfoldable pub begin_soft_stop : Supervisor → Supervisor
begin_soft_stop s = record s { accepting = false; stopping = true }

pub data Event : Type 0 where
  started soft_stopped : Event
  submitted ran finished : ℕ × ℕ → Event

unfoldable pub step : Event → Supervisor → Supervisor
step started s = (start s).1
step soft_stopped s = begin_soft_stop s
step (submitted key) s = (submit key s).1
step (ran key) s = (run_job key s).1
step (finished key) s = (finish key s).1

unfoldable pub run : List Event → Supervisor → Supervisor
run [] s = s
run (e ∷ es) s = run es (step e s)

remove_first-length :
    (key : ℕ × ℕ) (keys : List (ℕ × ℕ)) → length (remove_first key keys) ≤ length keys
unfolding remove_first
remove_first-length key [] = omega arith
remove_first-length key (k ∷ ks) = elim (Bool-cases (key_beq k key)) [
  | inl same ↦ rw (remove_first, same) (omega arith)
  | inr other ↦ rw (remove_first, other) (omega (arith, remove_first-length key ks))
]
  where
    key_beq : ℕ × ℕ → ℕ × ℕ → Bool
    key_beq a b = a == b

reserve-bound :
    (key : ℕ × ℕ) (s : Supervisor)
    → length s.active ≤ s.concurrency
    → length (reserve key s).1.active ≤ (reserve key s).1.concurrency
unfolding reserve free_slots
reserve-bound key s le = ground (arith, length-append s.active (key ∷ []))

step-bound :
    (e : Event) (s : Supervisor)
    → length s.active ≤ s.concurrency
    → (length (step e s).active ≤ (step e s).concurrency)
unfolding step start submit run_job finish begin_soft_stop
step-bound started s le = ground arith
step-bound soft_stopped s le = ground arith
step-bound (submitted key) s le = ground (arith, reserve-bound key s le)
step-bound (ran key) s le = ground (arith, reserve-bound key s le)
step-bound (finished key) s le = omega (arith, remove_first-length key s.active)

-- A supervisor with no more active attempts than its concurrency allows never has more, whatever is
-- submitted, run, finished and stopped in whatever order.
pub run-bound :
    (es : List Event) (s : Supervisor)
    → length s.active ≤ s.concurrency
    → length (run es s).active ≤ (run es s).concurrency
unfolding run
run-bound [] s le = le
run-bound (e ∷ es) s le = run-bound es (step e s) (step-bound e s le)
