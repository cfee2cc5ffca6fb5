-- ===== src/Worker/Heartbeat.antt =====
-- worker.py: the heartbeats that keep the lease of a running job. Times are in microseconds of the
-- worker's monotonic clock, and a sleep ends when it is asked to.
pub mod Budget
use outlabs_taskq.Prelude.{
  ℕ, ◌+◌, ◌*◌, ◌-◌, ◌/◌, ◌^◌, min, max, ltb, leb, Bool, true, false, ◌&&◌, List, [], ◌∷◌,
  if◌then◌else◌,
}
use outlabs_taskq.Worker.Settlement.{heartbeat_interval, lease_budget}

-- How a heartbeat comes back: with an answer of the server, with an error that may pass, or with
-- another one.
pub data Reply : Type 0 where
  confirmed : (cancel_requested : Bool) → Reply
  rejected retryable fatal : Reply

-- One call, by its duration if nothing cancels it.
pub record Call : Type 0 where
  pub duration : ℕ
  pub reply : Reply

-- The checkpoint that a call carries, and its acknowledgement, stand in Execution.

-- The loop at its head: the clock, the last send that was confirmed, and the failures since.
pub record Beat : Type 0 where
  pub now : ℕ
  pub last_ok : ℕ
  pub failures : ℕ
  pub attempted : Bool
  pub is_cancelled : Bool

pub data LossReason : Type 0 where
  heartbeat_unavailable heartbeat_timeout heartbeat_error heartbeat_lost : LossReason

-- Where a heartbeat leaves the loop: at its next head, or with the ownership lost at a time.
pub data Outcome : Type 0 where
  beats : Beat → Outcome
  lost : (reason : LossReason) (at last_ok : ℕ) → Outcome

abbrev pub then_beats : (Beat → Outcome) → Outcome → Outcome
then_beats f (beats b) = f b
then_beats f (lost reason at last_ok) = lost reason at last_ok

module _ (lease_seconds : ℕ) where
  -- last_ok + budget, up to which the job may run
  unfoldable pub deadline : Beat → ℕ
  unfolding lease_budget
  deadline b = b.last_ok + lease_budget lease_seconds

  -- How long the next call may take.
  unfoldable pub allowance : Beat → ℕ
  unfolding deadline heartbeat_interval
  allowance b =
      if b.attempted
      then deadline b - b.now
      else max (deadline b - b.now) (heartbeat_interval lease_seconds)

  -- The sleep after a failure that ended at `done`.
  unfoldable pub failure_sleep : Beat → ℕ → ℕ
  unfolding deadline heartbeat_interval
  failure_sleep b done =
      min (250000 * 2 ^ min b.failures 10)
        (min (heartbeat_interval lease_seconds) (deadline b - done))

  -- What a call that took `duration` leads to.
  unfoldable pub after_reply : Beat → ℕ → Reply → Outcome
  unfolding failure_sleep heartbeat_interval
  after_reply b duration (confirmed cancel_requested) = beats (record {
    now = b.now + duration + (heartbeat_interval lease_seconds - duration);
    last_ok = b.now;
    failures = 0;
    attempted = true;
    is_cancelled = if cancel_requested then true else b.is_cancelled;
  })
  after_reply b duration retryable = beats (record b {
    now = b.now + duration + failure_sleep b (b.now + duration);
    failures = b.failures + 1;
    attempted = true;
  })
  after_reply b duration rejected = lost heartbeat_lost (b.now + duration) b.last_ok
  after_reply b duration fatal = lost heartbeat_error (b.now + duration) b.last_ok

  -- One round of the loop.
  unfoldable pub heartbeat : Beat → Call → Outcome
  unfolding deadline allowance after_reply
  heartbeat b c =
      if b.attempted && leb (deadline b) b.now
      then lost heartbeat_unavailable b.now b.last_ok
      else if ltb (allowance b) c.duration
      then lost heartbeat_timeout (b.now + allowance b) b.last_ok
      else after_reply b c.duration c.reply

  -- The rounds of _heartbeat_loop, up to the settlement of the job.
  unfoldable pub heartbeat_loop : Beat → List Call → Outcome
  unfolding heartbeat
  heartbeat_loop b [] = beats b
  heartbeat_loop b (c ∷ cs) = then_beats (λ next. heartbeat_loop next cs) (heartbeat b c)

  -- The loop behind its first sleep, for a claim that was sent at `claimed_at`.
  unfoldable pub first_beat : ℕ → ℕ → Beat
  unfolding lease_budget heartbeat_interval
  first_beat claimed_at now = record {
    now =
        now
        + min (heartbeat_interval lease_seconds)
            ((claimed_at + lease_budget lease_seconds - now) / 2);
    last_ok = claimed_at;
    failures = 0;
    attempted = false;
    is_cancelled = false;
  }
