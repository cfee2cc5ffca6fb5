-- ===== src/Worker/Settlement/Retry.antt =====
-- What the loop of `_settle_with_retry` in worker.py makes of outages and of malformed responses.
use outlabs_taskq.Prelude.{
  ℕ, ◌+◌, ◌≤◌, ◌<◌, ◌≡◌, refl, ◌∙◌, Bool, true, false, String, Option, none, some, List, [], ◌∷◌,
  ◌++◌, ltb, if◌then◌else◌, nat_eq, string_eq, arith, All, length, length-append,
}
use outlabs_taskq.Protocol.{SettleCommand, SettleOutcome}
use outlabs_taskq.Worker.Settlement.{
  report_from_settle, Control, lease_budget, Answer, Options, Round, unknown, is_outcome,
  answer_next, after_failure, settle_rounds, settle_with_retry, unavailable, malformed, returned,
  rejected, conflicted, final_error, other_error, backpressure, reports,
}

abbrev pub is_unavailable : Answer → Bool
is_unavailable (unavailable code after) = true
is_unavailable _ = false

abbrev pub CodeIs : String → Answer → Type 0
CodeIs code (malformed given after) = given ≡ code
CodeIs code _ = ⊥

-- A round of an outage that an owner outlasts.
pub record IsOutage (c : Control) (r : Round) : Type 0 where
  pub unavailable : is_unavailable r.answer ≡ true
  pub kept_before : r.lost_before ≡ false
  pub kept_after : r.lost_in_delay ≡ false
  pub going : r.stopping ≡ false
  pub in_lease : r.elapsed < lease_budget c.lease_seconds

-- A round with a malformed response.
pub record IsMalformed (code : String) (r : Round) : Type 0 where
  pub malformed : CodeIs code r.answer
  pub kept_before : r.lost_before ≡ false
  pub kept_after : r.lost_in_delay ≡ false
  pub kept : r.lost_after ≡ false

unavailable_answer :
    (a : Answer)
    → is_unavailable a ≡ true
    → (code : String) × (after : ℕ) × (a ≡ unavailable code after)
unavailable_answer (unavailable code after) e = (code, after, refl)
unavailable_answer (returned result) e = absurd cc
unavailable_answer rejected e = absurd cc
unavailable_answer (conflicted reason) e = absurd cc
unavailable_answer final_error e = absurd cc
unavailable_answer other_error e = absurd cc
unavailable_answer (malformed code after) e = absurd cc
unavailable_answer (backpressure code after) e = absurd cc

malformed_answer :
    (code : String) (a : Answer) → CodeIs code a → (after : ℕ) × (a ≡ malformed code after)
malformed_answer code (malformed given after) e = (after, rw e refl)
malformed_answer code (unavailable given after) e = absurd e
malformed_answer code (returned result) e = absurd e
malformed_answer code rejected e = absurd e
malformed_answer code (conflicted reason) e = absurd e
malformed_answer code final_error e = absurd e
malformed_answer code other_error e = absurd e
malformed_answer code (backpressure given after) e = absurd e

outage-step :
    (o : Options) (id : ℕ) (command : SettleCommand) (c : Control) (x : Round) (rs : List Round)
    (n : ℕ) (failing : Bool)
    → IsOutage c x
    → settle_rounds o id command (some c) n failing (x ∷ rs)
      ≡ settle_rounds o id command
          (some c)
          (n + 1)
          (if ltb (n + 1) o.max_attempts then failing else true)
          rs
unfolding settle_rounds after_failure answer_next
outage-step o id command c x rs n failing h =
    let (code, after, a) = unavailable_answer x.answer h.unavailable in
    ground (arith, a, h.kept_before, h.kept_after, h.going, h.in_lease)

settle_rounds-outage :
    (o : Options) (id : ℕ) (command : SettleCommand) (c : Control) (outage : List Round) (r : Round)
    (more : List Round) (result : SettleOutcome) (n : ℕ) (failing : Bool)
    → All (IsOutage c) outage
    → r.lost_before ≡ false
    → r.answer ≡ returned result
    → is_outcome command result ≡ true
    → settle_rounds o id command (some c) n failing (outage ++ r ∷ more)
      ≡ some (reports (report_from_settle id command result false))
unfolding settle_rounds after_failure answer_next
settle_rounds-outage o id command c [] r more result n failing all kept answer fits =
    ground (arith, kept, answer, fits)
settle_rounds-outage o id command c (x ∷ xs) r more result n failing all kept answer fits =
    outage-step o id command c x (xs ++ r ∷ more) n failing all.0
    ∙ settle_rounds-outage o id command c xs r more result (n + 1) _ all.1 kept answer fits

-- An owned job outlasts an outage: while each attempt fails for unavailability within the lease's
-- budget, ownership is kept and the worker is not stopping, the loop goes on past any number of
-- attempts, and reports the first answer that the command knows.
pub settle_with_retry-outage :
    (o : Options) (id : ℕ) (command : SettleCommand) (c : Control) (outage : List Round) (r : Round)
    (more : List Round) (result : SettleOutcome)
    → All (IsOutage c) outage
    → r.lost_before ≡ false
    → r.answer ≡ returned result
    → is_outcome command result ≡ true
    → settle_with_retry o id command (some c) (outage ++ r ∷ more)
      ≡ some (reports (report_from_settle id command result false))
unfolding settle_with_retry
settle_with_retry-outage o id command c outage r more result =
    settle_rounds-outage o id command c outage r more result 0 false

malformed-step :
    (o : Options) (id : ℕ) (command : SettleCommand) (c : Option Control) (code : String)
    (x : Round) (rs : List Round) (n : ℕ) (failing : Bool)
    → IsMalformed code x
    → settle_rounds o id command c n failing (x ∷ rs) ≡ (
        if ltb (n + 1) o.max_attempts
        then settle_rounds o id command c (n + 1) failing rs
        else some (reports (unknown id command code)))
unfolding settle_rounds after_failure answer_next
malformed-step o id command none code x rs n failing h =
    let (after, a) = malformed_answer code x.answer h.malformed in
    ground (arith, a, h.kept_before, h.kept_after, h.kept)
malformed-step o id command (some c) code x rs n failing h =
    let (after, a) = malformed_answer code x.answer h.malformed in
    ground (arith, a, h.kept_before, h.kept_after, h.kept)

settle_rounds-cap :
    (o : Options) (id : ℕ) (command : SettleCommand) (c : Option Control) (code : String)
    (rs more : List Round) (n : ℕ) (failing : Bool)
    → All (IsMalformed code) rs
    → n + length rs ≡ o.max_attempts
    → 1 ≤ length rs
    → settle_rounds o id command c n failing (rs ++ more) ≡ some (reports (unknown id command code))
unfolding settle_rounds after_failure answer_next
settle_rounds-cap o id command c code [] more n failing all e one = absurd (omega (arith, one))
settle_rounds-cap o id command c code (x ∷ []) more n failing all e one =
    ground (arith, malformed-step o id command c code x more n failing all.0)
settle_rounds-cap o id command c code (x ∷ y ∷ ys) more n failing all e one =
    let rest =
      settle_rounds-cap o id command c code (y ∷ ys) more (n + 1) failing all.1 (omega (arith, e))
        (omega arith) in
    let less : ltb (n + 1) o.max_attempts ≡ true = ground (arith, e) in
    malformed-step o id command c code x (y ∷ ys ++ more) n failing all.0 ∙ rw less rest

-- Fewer failures than the cap do not end the loop.
settle_rounds-short :
    (o : Options) (id : ℕ) (command : SettleCommand) (c : Option Control) (code : String)
    (rs : List Round) (n : ℕ) (failing : Bool)
    → All (IsMalformed code) rs
    → n + length rs < o.max_attempts
    → settle_rounds o id command c n failing rs ≡ none
unfolding settle_rounds
settle_rounds-short o id command c code [] n failing all e = refl
settle_rounds-short o id command c code (x ∷ xs) n failing all e =
    let rest =
      settle_rounds-short o id command c code xs (n + 1) failing all.1 (omega (arith, e)) in
    let less : ltb (n + 1) o.max_attempts ≡ true = ground (arith, e) in
    malformed-step o id command c code x xs n failing all.0 ∙ rw less rest

All-snoc :
    (code : String) (front : List Round) (last : Round)
    → All (IsMalformed code) front
    → IsMalformed code last
    → All (IsMalformed code) (front ++ last ∷ [])
All-snoc code [] last all h = (h, tt)
All-snoc code (x ∷ xs) last all h = (all.0, All-snoc code xs last all.1 h)

-- A server whose responses are malformed is asked exactly `settle_max_attempts` times: with
-- ownership kept, one failure less than these leaves the loop unfinished, and the last of them ends
-- it with the report of an unknown settlement, which is fatal, whatever the rounds behind it would
-- have brought.
pub settle_with_retry-cap :
    (o : Options) (id : ℕ) (command : SettleCommand) (c : Option Control) (code : String)
    (front : List Round) (last : Round) (more : List Round)
    → All (IsMalformed code) front
    → IsMalformed code last
    → length front + 1 ≡ o.max_attempts
    → (settle_with_retry o id command c front ≡ none)
      × (settle_with_retry o id command c ((front ++ last ∷ []) ++ more)
          ≡ some (reports (unknown id command code)))
unfolding settle_with_retry
settle_with_retry-cap o id command c code front last more all ends e =
    let size = length-append front (last ∷ []) in
    (
      settle_rounds-short o id command c code front 0 false all (omega (arith, e)),
      settle_rounds-cap o id command c code (front ++ last ∷ []) more 0 false
          (All-snoc code front last all ends) (omega (arith, e, size)) (omega (arith, size)),
    )
