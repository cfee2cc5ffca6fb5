-- ===== src/Worker/Results/Followups.antt =====
-- The followups of a completed job in worker.py are runnable.
use outlabs_taskq.Prelude.{
  ◌≡◌, ◌∙◌, refl, sym, subst, Bool, Option, none, some, List, [], All, arith, inl, inr,
}
use outlabs_taskq.Protocol.{Json, Followup, complete, cancel, retry, non_retryable, snooze}
use outlabs_taskq.Registry.{Task, TaskRegistry, Checked, accepted, refused, normalize_followups}
use outlabs_taskq.Registry.Graph.{Checked-cases}
use outlabs_taskq.Registry.Registered.{IsRegistered, normalize_followups-IsRegistered}
use outlabs_taskq.Continuations.{
  CompiledPolicy, Codec, enforce, members, followup_identity, validate_compiled,
}
use outlabs_taskq.Continuations.Runnable.{IsRunnable}
use outlabs_taskq.Continuations.Enforced.{enforce-IsRunnable}
use outlabs_taskq.Worker.Results.{
  HandlerValue, result, plain, HandlerError, task_cancelled, diagnostic, normalized, of_error,
  of_value, with_output, with_followups, plain_output, normalize_handler_result,
}

module _ (codec : Codec) (registry : TaskRegistry) (task : Task)
    (validate_output : Json → Option Json) (is_retry_off : Bool) (policy : CompiledPolicy)
    (valid : validate_compiled codec registry policy ≡ accepted tt) (output : Json)
    (fs : List Followup) where
  abbrev RunsAll : List Followup → Type 0
  RunsAll l =
      All (IsRegistered registry task) l
      × All (λ f. IsRunnable registry (followup_identity task f)) (members l)

  abbrev Runs : Type 0
  Runs = RunsAll fs

  normalized-fs :
      (made : Json) (out : List Followup)
      → normalized (complete made out) ≡ normalized (complete output fs)
      → out ≡ fs
  normalized-fs made out is = ground (arith, is)

  with_followups-Runs :
      (made : Json) (c : Checked (List Followup))
      → ((gs : List Followup) → c ≡ accepted gs → All (IsRegistered registry task) gs)
      → with_followups registry task validate_output is_retry_off (some policy) made c
        ≡ normalized (complete output fs)
      → Runs
  unfolding with_followups
  with_followups-Runs made (refused e) named is = absurd (ground (arith, is))
  with_followups-Runs made (accepted gs) named is =
      elim (Checked-cases (enforce task gs (some policy))) [
        | inr (e, nope) ↦ absurd (ground (arith, is, nope))
        | inl (out, fine) ↦
            let (same, runs) = enforce-IsRunnable codec registry task policy gs out valid fine in
            let whole : normalized (complete made out) ≡ normalized (complete output fs) =
              ground (arith, is, fine) in
            subst RunsAll (sym same ∙ normalized-fs made out whole) (named gs refl, runs)
      ]

  with_output-Runs :
      (hs : List Followup) (o : Option Json)
      → with_output registry task validate_output is_retry_off (some policy) hs o
        ≡ normalized (complete output fs)
      → Runs
  unfolding with_output
  with_output-Runs hs none is = absurd (ground (arith, is))
  with_output-Runs hs (some made) is =
      with_followups-Runs made (normalize_followups registry task hs)
        (normalize_followups-IsRegistered registry task hs) is

  plain-Runs :
      (o : Option Json)
      → plain_output registry task validate_output is_retry_off (some policy) o
        ≡ normalized (complete output fs)
      → Runs
  unfolding members
  plain-Runs none is = absurd (ground (arith, is))
  plain-Runs (some made) is =
      let same : [] ≡ fs = normalized-fs made [] is in subst RunsAll same (tt, tt)

  of_value-Runs :
      (v : HandlerValue)
      → of_value registry task validate_output is_retry_off (some policy) v
        ≡ normalized (complete output fs)
      → Runs
  unfolding of_value
  of_value-Runs (plain o) is = plain-Runs _ is
  of_value-Runs (result (complete made hs)) is = with_output-Runs hs (validate_output made) is
  of_value-Runs (result (snooze d r p)) is = absurd (ground (arith, is))
  of_value-Runs (result (cancel r)) is = absurd (ground (arith, is))
  of_value-Runs (result (retry a e p)) is = absurd (ground (arith, is))
  of_value-Runs (result (non_retryable e p)) is = absurd (ground (arith, is))

  -- Where the end of a handler completes a job under a validated policy, each followup, member or not,
  -- bears the name of a registered task, stands in its queue, and carries a payload that the task's
  -- validation gave; and for a member the registry resolves that very name in that queue.
  pub normalize_handler_result-IsRunnable :
      (value : HandlerValue) (error : Option HandlerError)
      → normalize_handler_result registry task validate_output is_retry_off
          (some policy)
          value
          error
        ≡ normalized (complete output fs)
      → All (IsRegistered registry task) fs
        × All (λ f. IsRunnable registry (followup_identity task f)) (members fs)
  unfolding normalize_handler_result of_error
  normalize_handler_result-IsRunnable value none is = of_value-Runs value is
  normalize_handler_result-IsRunnable value (some (task_cancelled reason)) is =
      absurd (ground (arith, is))
  normalize_handler_result-IsRunnable value (some (diagnostic text)) is =
      absurd (ground (arith, is))
