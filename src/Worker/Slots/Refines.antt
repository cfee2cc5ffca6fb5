-- ===== src/Worker/Slots/Refines.antt =====
-- WorkerSupervisor of worker.py, seen as a set of attempts with a capacity.
use outlabs_taskq.Prelude.{
  ℕ, ◌+◌, ◌-◌, ◌≡◌, ◌∙◌, refl, sym, ap, Bool, true, false, not, ◌&&◌, ◌||◌, ◌==◌, leb, List, [],
  ◌∷◌, ◌++◌, if◌then◌else◌, nat_eq, pair_eq, arith, contains, distinct, length, length-append,
  remove_first, inl, inr, Bool-cases, subst,
}
use outlabs_taskq.Worker.Slots.Keys.{
  contains-snoc, distinct-snoc, contains-remove_first, length-remove_first, distinct-remove_first,
}
use outlabs_taskq.Worker.Slots.{
  Supervisor, Event, started, soft_stopped, submitted, ran, finished, step, run, start, submit,
  run_job, reserve, finish, begin_soft_stop, free_slots,
}

abbrev pub Key : Type 0
Key = ℕ × ℕ

-- What a supervisor promises: which attempts run and how many, without their order.
pub record Running : Type 0 where
  pub concurrency : ℕ
  pub accepting : Bool
  pub stopping : Bool
  pub stopped : Bool
  pub size : ℕ
  pub has : Key → Bool

-- The view of a supervisor.
abbrev view : Supervisor → ℕ → (Key → Bool) → Running
view s size has = record {
  concurrency = s.concurrency;
  accepting = s.accepting;
  stopping = s.stopping;
  stopped = s.stopped;
  size = size;
  has = has;
}

unfoldable pub abstract_of : Supervisor → Running
unfolding contains
abstract_of s = view s (length s.active) (λ k. contains k s.active)

abbrev admit : Key → Running → Running
admit key v =
    if v.has key || leb v.concurrency v.size
    then v
    else record v { size = v.size + 1; has = λ k. v.has k || key == k }

abbrev discard : Key → Running → Running
discard key v = record v {
  size = if v.has key then v.size - 1 else v.size;
  has = λ k. not (key == k) && v.has k;
}

-- One event, on the set.
unfoldable pub spec_step : Event → Running → Running
spec_step started v = if v.stopping || v.stopped then v else record v { accepting = true }
spec_step soft_stopped v = record v { accepting = false; stopping = true }
spec_step (submitted key) v = if v.accepting then admit key v else v
spec_step (ran key) v = if v.stopping || v.stopped then v else admit key v
spec_step (finished key) v = discard key v

unfoldable pub spec_run : List Event → Running → Running
unfolding spec_step
spec_run [] v = v
spec_run (e ∷ es) v = spec_run es (spec_step e v)

view-path :
    (s : Supervisor) (m n : ℕ) (f g : Key → Bool)
    → m ≡ n
    → ((k : Key) → f k ≡ g k)
    → view s m f ≡ view s n g
view-path s m n f g p q = λ i. view s (p i) (λ k. q k i)

IsDistinct : Supervisor → Type 0
IsDistinct s = distinct s.active ≡ true

-- What a step does to the set, and that no attempt is listed twice.
abbrev Simulates : Event → Supervisor → Type 0
Simulates ev s = (abstract_of (step ev s) ≡ spec_step ev (abstract_of s)) × IsDistinct (step ev s)

reserve-admit :
    (key : Key) (s : Supervisor)
    → IsDistinct s
    → (abstract_of (reserve key s).1 ≡ admit key (abstract_of s)) × IsDistinct (reserve key s).1
unfolding reserve free_slots abstract_of IsDistinct
reserve-admit key s d =
    elim (Bool-cases (contains key s.active || leb s.concurrency (length s.active))) [
      | inl full ↦
          let refused : (contains key s.active || s.concurrency - length s.active == 0) ≡ true =
            ground (arith, full) in
          rw (full, refused) (refl, d)
      | inr fits ↦
          let taken : (contains key s.active || s.concurrency - length s.active == 0) ≡ false =
            ground (arith, fits) in
          rw (fits, taken)
            (
              view-path s (length (s.active ++ key ∷ [])) (length s.active + 1)
                  (λ k. contains k (s.active ++ key ∷ [])) (λ k. contains k s.active || key == k)
                  (length-append s.active (key ∷ []) ∙ omega arith)
                  (λ k. contains-snoc k key s.active),
              distinct-snoc key s.active d (ground (arith, fits)),
            )
    ]

-- A step whose end is known.
by_end :
    (ev : Event) (s s' : Supervisor)
    → step ev s ≡ s'
    → abstract_of s' ≡ spec_step ev (abstract_of s)
    → IsDistinct s'
    → Simulates ev s
by_end ev s s' p q d = (ap abstract_of p ∙ q, subst IsDistinct (sym p) d)

spec_submitted :
    (key : Key) (v : Running) → v.accepting ≡ true → spec_step (submitted key) v ≡ admit key v
unfolding spec_step
spec_submitted key v h = ap (λ b. if b then admit key v else v) h

spec_ran :
    (key : Key) (v : Running)
    → (v.stopping || v.stopped) ≡ false
    → spec_step (ran key) v ≡ admit key v
unfolding spec_step
spec_ran key v h = ap (λ b. if b then v else admit key v) h

step-Simulates : (ev : Event) (s : Supervisor) → IsDistinct s → Simulates ev s
unfolding step spec_step start submit run_job finish begin_soft_stop abstract_of IsDistinct
step-Simulates started s d = elim (Bool-cases (s.stopping || s.stopped)) [
  | inl ended ↦ by_end started s s (rw (ended, step, start) refl) (rw (ended, spec_step) refl) d
  | inr live ↦
      by_end started s (record s { accepting = true }) (rw (live, step, start) refl)
        (rw (live, spec_step) refl) d
]
step-Simulates soft_stopped s d = (refl, d)
step-Simulates (submitted key) s d = elim (Bool-cases s.accepting) [
  | inl taken ↦
      let (same, d1) = reserve-admit key s d in
      by_end (submitted key) s (reserve key s).1 (rw (taken, step, submit) refl)
        (same ∙ sym (spec_submitted key (abstract_of s) taken)) d1
  | inr refused ↦
      by_end (submitted key) s s (rw (refused, step, submit) refl) (rw (refused, spec_step) refl) d
]
step-Simulates (ran key) s d = elim (Bool-cases (s.stopping || s.stopped)) [
  | inl ended ↦ by_end (ran key) s s (rw (ended, step, run_job) refl) (rw (ended, spec_step) refl) d
  | inr live ↦
      let (same, d1) = reserve-admit key s d in
      by_end (ran key) s (reserve key s).1 (rw (live, step, run_job) refl)
        (same ∙ sym (spec_ran key (abstract_of s) live)) d1
]
step-Simulates (finished key) s d = (
  view-path s (length (remove_first key s.active))
      (if contains key s.active then length s.active - 1 else length s.active)
      (λ k. contains k (remove_first key s.active)) (λ k. not (key == k) && contains k s.active)
      (length-remove_first key s.active) (λ k. contains-remove_first k key s.active d),
  distinct-remove_first key s.active d,
)

-- A supervisor that lists no attempt twice does with any events what a set with a capacity does, by
-- the members, their number and its modes, and lists none twice at the end.
pub run-spec_run :
    (es : List Event) (s : Supervisor)
    → distinct s.active ≡ true
    → (abstract_of (run es s) ≡ spec_run es (abstract_of s)) × (distinct (run es s).active ≡ true)
unfolding run spec_run IsDistinct
run-spec_run [] s d = (refl, d)
run-spec_run (ev ∷ es) s d =
    let (same, d1) = step-Simulates ev s d in
    let (rest, d2) = run-spec_run es (step ev s) d1 in (rest ∙ ap (spec_run es) same, d2)
