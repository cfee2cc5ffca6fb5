-- ===== src/Worker/Heartbeat/Budget.antt =====
-- No job of worker.py runs past its lease budget without a confirmed heartbeat.
use outlabs_taskq.Prelude.{
  ℕ, ◌+◌, ◌≤◌, ◌≡◌, subst, max, ltb, leb, false, ◌&&◌, List, [], ◌∷◌, arith, inl, inr, Bool-cases,
}
use outlabs_taskq.Worker.Settlement.{heartbeat_interval, lease_budget}
use outlabs_taskq.Worker.Heartbeat.{
  Reply, confirmed, rejected, retryable, fatal, Call, Beat, LossReason, Outcome, beats, lost,
  deadline, allowance, failure_sleep, after_reply, heartbeat, heartbeat_loop, then_beats,
  first_beat,
}

interval-budget : (lease : ℕ) → heartbeat_interval lease ≤ lease_budget lease
unfolding heartbeat_interval lease_budget
interval-budget lease = omega arith

module _ (lease first : ℕ) where
  -- The clock has not passed the deadline, but for the time that the first heartbeat is given.
  record IsInTime (b : Beat) : Type 0 where
    is_later : b.last_ok ≤ b.now
    is_early : b.now ≤ max (deadline lease b) first
    first_call : b.attempted ≡ false → b.now + heartbeat_interval lease ≤ first

  abbrev IsKept : Outcome → Type 0
  IsKept (beats b) = IsInTime b
  IsKept (lost reason at last_ok) = at ≤ max (last_ok + lease_budget lease) first

  -- A call that takes no longer than it may ends in time.
  call-end :
      (b : Beat) (duration : ℕ)
      → IsInTime b
      → duration ≤ allowance lease b
      → b.now + duration ≤ max (deadline lease b) first
  unfolding allowance
  call-end b duration i short = ground (arith, i.is_early, i.first_call, short)

  call-short :
      (b : Beat) (duration : ℕ)
      → IsInTime b
      → duration ≤ allowance lease b
      → duration ≤ lease_budget lease
  unfolding allowance deadline
  call-short b duration i short = ground (arith, i.is_later, short, interval-budget lease)

  after_reply-IsKept :
      (b : Beat) (duration : ℕ) (reply : Reply)
      → IsInTime b
      → duration ≤ allowance lease b
      → IsKept (after_reply lease b duration reply)
  unfolding after_reply failure_sleep deadline
  after_reply-IsKept b duration (confirmed cancel_requested) i short = record {
    is_later = omega arith;
    is_early = omega (arith, call-short b duration i short, interval-budget lease);
    first_call = λ never. absurd cc;
  }
  after_reply-IsKept b duration retryable i short = record {
    is_later = omega (arith, i.is_later);
    is_early = omega (arith, call-end b duration i short);
    first_call = λ never. absurd cc;
  }
  after_reply-IsKept b duration rejected i short = call-end b duration i short
  after_reply-IsKept b duration fatal i short = call-end b duration i short

  heartbeat-IsKept : (b : Beat) (c : Call) → IsInTime b → IsKept (heartbeat lease b c)
  unfolding heartbeat
  heartbeat-IsKept b c i = elim (Bool-cases (b.attempted && leb (deadline lease b) b.now)) [
    | inl late ↦ rw late i.is_early
    | inr early ↦ rw early (elim (Bool-cases (ltb (allowance lease b) c.duration)) [
      | inl long ↦ rw long (call-end b (allowance lease b) i (omega arith))
      | inr short ↦ rw short (after_reply-IsKept b c.duration c.reply i (ground (arith, short)))
    ])
  ]

  then_beats-IsKept :
      (f : Beat → Outcome) (o : Outcome)
      → IsKept o
      → ((b : Beat) → IsInTime b → IsKept (f b))
      → IsKept (then_beats f o)
  then_beats-IsKept f (beats b) kept on = on b kept
  then_beats-IsKept f (lost reason at last_ok) kept on = kept

  heartbeat_loop-IsKept :
      (b : Beat) (cs : List Call) → IsInTime b → IsKept (heartbeat_loop lease b cs)
  unfolding heartbeat_loop
  heartbeat_loop-IsKept b [] i = i
  heartbeat_loop-IsKept b (c ∷ cs) i =
      then_beats-IsKept (λ next. heartbeat_loop lease next cs) (heartbeat lease b c)
        (heartbeat-IsKept b c i) (λ next in_time. heartbeat_loop-IsKept next cs in_time)

-- Whatever the heartbeats meet, the ownership is lost no later than the lease budget after the last
-- confirmed send, or at the end of the interval that the first heartbeat is given.
pub heartbeat_loop-budget :
    (lease claimed_at now : ℕ) (cs : List Call) (reason : LossReason) (at last_ok : ℕ)
    → claimed_at ≤ now
    → heartbeat_loop lease (first_beat lease claimed_at now) cs ≡ lost reason at last_ok
    → at
      ≤ max
          (last_ok + lease_budget lease)
          ((first_beat lease claimed_at now).now + heartbeat_interval lease)
unfolding first_beat
heartbeat_loop-budget lease claimed_at now cs reason at last_ok later e =
    let b : Beat = first_beat lease claimed_at now in
    let first : ℕ = b.now + heartbeat_interval lease in
    let start : IsInTime lease first b = record {
      is_later = omega (arith, later);
      is_early = omega arith;
      first_call = λ never. omega arith;
    } in
    subst (IsKept lease first) e (heartbeat_loop-IsKept lease first b cs start)
