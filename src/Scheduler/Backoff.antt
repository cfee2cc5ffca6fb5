-- ===== src/Scheduler/Backoff.antt =====
-- The waits between the cycles of the scheduler's loop in scheduler.py.
use outlabs_taskq.Prelude.{
  ℕ, ◌+◌, ◌-◌, ◌*◌, ◌≤◌, min, max, Bool, true, false, List, [], ◌∷◌, All, arith,
}
use outlabs_taskq.Scheduler.{cycle_delay, delays, run_delays, jittered}
use native.Mathlib.Nat.{mul-le-mul_left, mul-le-mul_right}

-- A product of factors in their ranges.
product-range :
    (low d high a f b : ℕ)
    → low ≤ d
    → d ≤ high
    → a ≤ f
    → f ≤ b
    → (low * a ≤ d * f) × (d * f ≤ high * b)
product-range low d high a f b ld dh af fb = (
  omega (arith, mul-le-mul_right a ld, mul-le-mul_left d af),
  omega (arith, mul-le-mul_right f dh, mul-le-mul_left high fb),
)

module _ (poll_interval backoff_cap jitter : ℕ) (fits : poll_interval ≤ backoff_cap) where
  -- The wait for a shortest delay at the least factor, and for the cap at the greatest.
  abbrev shortest : ℕ
  shortest = max 10000000000 (poll_interval * (1000000 - jitter))

  abbrev longest : ℕ
  longest = max 10000000000 (backoff_cap * (1000000 + jitter))

  jittered-range :
      (delay factor : ℕ)
      → poll_interval ≤ delay
      → delay ≤ backoff_cap
      → 1000000 - jitter ≤ factor
      → factor ≤ 1000000 + jitter
      → (shortest ≤ jittered delay factor) × (jittered delay factor ≤ longest)
  jittered-range delay factor low high least most =
      let (above, below) =
        product-range poll_interval delay backoff_cap (1000000 - jitter) factor (1000000 + jitter)
          low high least most in
      (ground (arith, above), ground (arith, below))

  delays-range :
      (backoff : ℕ) (cycles : List (Bool × ℕ))
      → poll_interval ≤ backoff
      → backoff ≤ backoff_cap
      → All (λ c. (1000000 - jitter ≤ c.1) × (c.1 ≤ 1000000 + jitter)) cycles
      → All (λ d. (shortest ≤ d) × (d ≤ longest)) (delays poll_interval backoff_cap backoff cycles)
  unfolding delays cycle_delay
  delays-range backoff [] low high drawn = tt
  delays-range backoff ((true, factor) ∷ cycles) low high ((least, most), drawn) = (
    jittered-range backoff factor low high least most,
    delays-range (min backoff_cap (max poll_interval (backoff * 2))) cycles
        (omega (arith, fits, low)) (omega arith) drawn,
  )
  delays-range backoff ((false, factor) ∷ cycles) low high ((least, most), drawn) = (
    jittered-range poll_interval factor (omega arith) fits least most,
    delays-range poll_interval cycles (omega arith) fits drawn,
  )

  -- With a cap that is not below the poll interval and factors that are drawn within the jitter, each
  -- wait is at least ten milliseconds and at least the poll interval shortened by the jitter, and at
  -- most the greater of ten milliseconds and the cap lengthened by the jitter, whichever cycles fail.
  pub run_delays-range :
      (cycles : List (Bool × ℕ))
      → All (λ c. (1000000 - jitter ≤ c.1) × (c.1 ≤ 1000000 + jitter)) cycles
      → All
          (λ d.
            (max 10000000000 (poll_interval * (1000000 - jitter)) ≤ d)
            × (d ≤ max 10000000000 (backoff_cap * (1000000 + jitter))))
          (run_delays poll_interval backoff_cap cycles)
  unfolding run_delays
  run_delays-range cycles drawn = delays-range poll_interval cycles (omega arith) fits drawn
