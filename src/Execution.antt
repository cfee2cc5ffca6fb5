-- ===== src/Execution.antt =====
-- execution.py: the cancellation token of a handler, and the checkpoints that it stages.
use outlabs_taskq.Prelude.{
  ℕ, ◌+◌, ◌≡◌, refl, ◌∙◌, Bool, true, false, ◌==◌, max, leb, ltb, Option, none, some, List, [], ◌∷◌,
  arith, if◌then◌else◌, nat_eq, Option-cases,
}
use outlabs_taskq.Effects.{Action, config, throw, modify}
use outlabs_taskq.Protocol.{Json}

pub data CancellationReason : Type 0 where
  shutdown operator lease_lost : CancellationReason

-- _CANCELLATION_PRIORITY
abbrev pub priority : CancellationReason → ℕ
priority shutdown = 1
priority operator = 2
priority lease_lost = 3

pub record CancellationToken : Type 0 where
  pub reason : Option CancellationReason
  pub is_cancelled : Bool

abbrev pub new_token : CancellationToken
new_token = record { reason = none; is_cancelled = false }

abbrev outranks : Option CancellationReason → CancellationReason → Bool
outranks none r = false
outranks (some current) r = leb (priority r) (priority current)

unfoldable pub cancel : CancellationReason → CancellationToken → Bool × CancellationToken
cancel r t =
    if outranks t.reason r
    then (false, t)
    else (true, record { reason = some r; is_cancelled = true })

-- The token after several calls, of any threads, in the order in which they took the lock.
unfoldable pub cancel_all : List CancellationReason → CancellationToken → CancellationToken
cancel_all [] t = t
cancel_all (r ∷ rs) t = cancel_all rs (cancel r t).1

abbrev pub rank : Option CancellationReason → ℕ
rank none = 0
rank (some r) = priority r

unfoldable pub highest : List CancellationReason → ℕ
highest [] = 0
highest (r ∷ rs) = max (priority r) (highest rs)

cancel-rank :
    (r : CancellationReason) (t : CancellationToken)
    → rank (cancel r t).1.reason ≡ max (rank t.reason) (priority r)
unfolding cancel
cancel-rank r t = ground arith

cancel_all-max :
    (rs : List CancellationReason) (t : CancellationToken)
    → rank (cancel_all rs t).reason ≡ max (rank t.reason) (highest rs)
unfolding cancel_all highest
cancel_all-max [] t = omega arith
cancel_all-max (r ∷ rs) t = omega (arith, cancel_all-max rs (cancel r t).1, cancel-rank r t)

cancel-flag :
    (r : CancellationReason) (t : CancellationToken)
    → t.is_cancelled ≡ ltb 0 (rank t.reason)
    → (cancel r t).1.is_cancelled ≡ ltb 0 (rank (cancel r t).1.reason)
unfolding cancel
cancel-flag r t e = ground arith

cancel_all-flag :
    (rs : List CancellationReason) (t : CancellationToken)
    → t.is_cancelled ≡ ltb 0 (rank t.reason)
    → (cancel_all rs t).is_cancelled ≡ ltb 0 (rank (cancel_all rs t).reason)
unfolding cancel_all
cancel_all-flag [] t e = e
cancel_all-flag (r ∷ rs) t e = cancel_all-flag rs (cancel r t).1 (cancel-flag r t e)

cancel_all-highest :
    (rs : List CancellationReason) → rank (cancel_all rs new_token).reason ≡ highest rs
cancel_all-highest rs = omega (arith, cancel_all-max rs new_token)

-- However the calls of `cancel` on a new token interleave, its reason is then the one with the
-- highest priority of those that were asked for, and the token is cancelled just if one was.
pub cancel_all-priority :
    (rs : List CancellationReason)
    → (rank (cancel_all rs new_token).reason ≡ highest rs)
      × ((cancel_all rs new_token).is_cancelled ≡ ltb 0 (highest rs))
cancel_all-priority rs =
    let m = cancel_all-highest rs in (m, cancel_all-flag rs new_token refl ∙ rw m refl)

-- The fields of a `JobContext` that the checkpoint lock guards.
pub record Staging : Type 0 where
  pub progress : Option Json
  pub generation : ℕ
  pub pending : Option Json

-- The length of the compact JSON encoding, where there is one.
module _ (encoded_length : Json → Option ℕ) where
  abbrev is_accepted : Option ℕ → Bool
  is_accepted none = false
  is_accepted (some n) = leb n 2048

  abbrev stage : Json → Staging → Staging
  stage p s = record { progress = some p; generation = s.generation + 1; pending = some p }

  unfoldable pub checkpoint_nowait : Json → Action Staging Unit
  checkpoint_nowait p = if is_accepted (encoded_length p) then modify (stage p) else throw config

  unfoldable pub pending_checkpoint : Staging → Option (ℕ × Json)
  pending_checkpoint s = elim s.pending [ none ↦ none | some p ↦ some (s.generation, p) ]

  unfoldable pub ack_checkpoint : ℕ → Staging → Staging
  ack_checkpoint g s = if g == s.generation then record s { pending = none } else s

  -- Several checkpoints of the handler; a refused one raises and is passed over.
  unfoldable pub checkpoints : List Json → Staging → Staging
  checkpoints [] s = s
  checkpoints (p ∷ ps) s = checkpoints ps (checkpoint_nowait p s).1

  abbrev newer : Option Json → Option Json → Option Json
  newer old none = old
  newer old (some p) = some p

  -- The last accepted one.
  unfoldable pub newest : List Json → Option Json
  newest [] = none
  newest (p ∷ ps) = newer (if is_accepted (encoded_length p) then some p else none) (newest ps)

  unfoldable pub count : List Json → ℕ
  count [] = 0
  count (p ∷ ps) = (if is_accepted (encoded_length p) then 1 else 0) + count ps

  checkpoints-generation :
      (ps : List Json) (s : Staging) → (checkpoints ps s).generation ≡ s.generation + count ps
  unfolding checkpoints checkpoint_nowait count
  checkpoints-generation [] s = omega arith
  checkpoints-generation (p ∷ ps) s =
      ground (arith, checkpoints-generation ps (checkpoint_nowait p s).1)

  checkpoints-pending :
      (ps : List Json) (s : Staging) → (checkpoints ps s).pending ≡ newer s.pending (newest ps)
  unfolding checkpoints checkpoint_nowait newest
  checkpoints-pending [] s = refl
  checkpoints-pending (p ∷ ps) s = ground (arith, checkpoints-pending ps (checkpoint_nowait p s).1)

  count-newest : (ps : List Json) → (count ps ≡ 0) → newest ps ≡ none
  unfolding count newest
  count-newest [] e = refl
  count-newest (p ∷ ps) e = ground (arith, count-newest ps)

  newest-count : (ps : List Json) → newest ps ≡ none → count ps ≡ 0
  unfolding count newest
  newest-count [] e = refl
  newest-count (p ∷ ps) e = ground (arith, newest-count ps)

  -- The runtime takes the pending checkpoint with its generation, the handler stages any more, and
  -- the runtime acknowledges what it took: then what is pending is the newest accepted checkpoint
  -- that was staged in between, and nothing if there was none. No newer checkpoint is dropped.
  pub ack_checkpoint-newest :
      (ps : List Json) (s : Staging) (g : ℕ) (p : Json)
      → pending_checkpoint s ≡ some (g, p)
      → (ack_checkpoint g (checkpoints ps s)).pending ≡ newest ps
  unfolding pending_checkpoint ack_checkpoint
  ack_checkpoint-newest ps s g p e = ground (
    arith,
    checkpoints-generation ps s,
    checkpoints-pending ps s,
    count-newest ps,
    newest-count ps,
    Option-cases (newest ps),
  )
