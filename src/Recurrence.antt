-- ===== src/Recurrence.antt =====
-- schedules.py: the instants at which a claimed schedule fires. An instant is a number of
-- microseconds.
pub mod Catchup
use outlabs_taskq.Prelude.{
  ℕ, zero, suc, ◌+◌, ◌-◌, ◌*◌, ◌/◌, ◌%◌, Bool, true, false, not, ◌&&◌, ◌||◌, ◌==◌, String, Option,
  none, some, List, [], ◌∷◌, ltb, leb, all, if◌then◌else◌, nat_eq,
}
use outlabs_taskq.Effects.{crash, validation, Result, ok, raised}
use outlabs_taskq.Protocol.{
  CatchupPolicy, skip, fire_once, fire_all, Recurrence, interval, cron, seconds,
}

-- A part of a cron field that the grammar of `_CRON_PART_RE` accepts.
pub record Part : Type 0 where
  pub is_star : Bool
  pub start : ℕ
  pub end : Option ℕ
  pub step : Option ℕ

-- What is not the library's own: the split of an expression at spaces and commas with the match of
-- each part, the zones of `zoneinfo`, and the wall times that `croniter` counts up or down from a
-- local time, by the number of the call.
pub record Calendar : Type 0 where
  pub fields : String → List (List (Option Part))
  pub is_zone : String → Bool
  pub to_local : String → ℕ → ℕ
  pub to_utc : String → ℕ → ℕ
  pub next_wall : String → ℕ → ℕ → ℕ
  pub prev_wall : String → ℕ → ℕ → ℕ

pub record Evaluation : Type 0 where
  pub occurrences : List ℕ
  pub next_fire_at : ℕ

abbrev positive_step : Option ℕ → Bool
positive_step none = true
positive_step (some n) = ltb 0 n

abbrev within : ℕ → ℕ → Part → Option ℕ → Bool
within low high p none = leb low p.start && leb p.start high
within low high p (some e) =
    leb low p.start && leb p.start high && leb low e && leb e high && leb p.start e

abbrev is_part : ℕ → ℕ → Option Part → Bool
is_part low high none = false
is_part low high (some p) = positive_step p.step && (p.is_star || within low high p p.end)

-- _CRON_BOUNDS, for exactly five fields
abbrev in_bounds : List (List (Option Part)) → Bool
in_bounds (m ∷ h ∷ d ∷ n ∷ w ∷ []) =
    all (is_part 0 59) m
    && all (is_part 0 23) h
    && all (is_part 1 31) d
    && all (is_part 1 12) n
    && all (is_part 0 7) w
in_bounds _ = false

module _ (calendar : Calendar) where
  -- validate_cron raises no ValueError
  unfoldable pub is_cron : String → String → Bool
  is_cron expression zone = in_bounds (calendar.fields expression) && calendar.is_zone zone

  -- _resolved_wall_time
  unfoldable pub resolved_wall_time : String → ℕ → Option ℕ
  resolved_wall_time zone wall =
      if calendar.to_local zone (calendar.to_utc zone wall) == wall
      then some (calendar.to_utc zone wall)
      else none

  abbrev is_after : ℕ → Option ℕ → Bool
  is_after after none = false
  is_after after (some t) = ltb after t

  abbrev is_until : ℕ → Option ℕ → Bool
  is_until limit none = false
  is_until limit (some t) = leb t limit

  abbrev or_invalid : Option ℕ → Result ℕ
  or_invalid none = raised (validation "recurrence")
  or_invalid (some t) = ok t

  -- The loops of at most 370 rounds; `i` is the number of the round.
  unfoldable pub search_next : ℕ → ℕ → String → String → ℕ → ℕ → Option ℕ
  unfolding resolved_wall_time
  search_next zero i expression zone local after = none
  search_next (suc fuel) i expression zone local after =
      let rest = search_next fuel (i + 1) expression zone local after in
      let t = resolved_wall_time zone (calendar.next_wall expression local i) in
      if is_after after t then t else rest

  unfoldable pub search_latest : ℕ → ℕ → String → String → ℕ → ℕ → Option ℕ
  unfolding resolved_wall_time
  search_latest zero i expression zone local limit = none
  search_latest (suc fuel) i expression zone local limit =
      let rest = search_latest fuel (i + 1) expression zone local limit in
      let t = resolved_wall_time zone (calendar.prev_wall expression local i) in
      if is_until limit t then t else rest

  unfoldable pub cron_next : String → String → ℕ → Result ℕ
  unfolding search_next
  cron_next expression zone after =
      or_invalid (search_next 370 0 expression zone (calendar.to_local zone after) after)

  unfoldable pub cron_latest : String → String → ℕ → Result ℕ
  unfolding search_latest
  cron_latest expression zone limit =
      or_invalid (search_latest 370 0 expression zone (calendar.to_local zone limit + 1) limit)

  -- _next
  unfoldable pub next : Recurrence → ℕ → Result ℕ
  next (interval n) after =
      if leb 60 n && leb n 31536000
      then ok (after + seconds n)
      else raised (validation "recurrence")
  next (cron expression zone) after =
      if is_cron expression zone
      then cron_next expression zone after
      else raised (validation "recurrence")

  abbrev and_next : List ℕ → Result ℕ → Result Evaluation
  and_next occurrences (raised e) = raised e
  and_next occurrences (ok t) = ok (record { occurrences = occurrences; next_fire_at = t })

  -- The last instant of the lattice that is due.
  unfoldable pub latest : Recurrence → ℕ → ℕ → Result ℕ
  latest (interval zero) due cutoff = raised crash
  latest (interval (suc n)) due cutoff =
      ok (due + (cutoff - due) / seconds (suc n) * seconds (suc n))
  latest (cron expression zone) due cutoff =
      if is_cron expression zone
      then cron_latest expression zone cutoff
      else raised (validation "recurrence")

  abbrev fire_latest : Recurrence → ℕ → ℕ → Result ℕ → Result Evaluation
  fire_latest r due cutoff (raised e) = raised e
  fire_latest r due cutoff (ok t) =
      if ltb t due then raised (validation "schedule_claim") else and_next (t ∷ []) (next r cutoff)

  abbrev before_it : ℕ → Result Evaluation → Result Evaluation
  before_it t (raised e) = raised e
  before_it t (ok v) =
      ok (record { occurrences = t ∷ v.occurrences; next_fire_at = v.next_fire_at })

  abbrev go_on : ℕ → (ℕ → Result Evaluation) → Result ℕ → Result Evaluation
  go_on cursor rest (raised e) = raised e
  go_on cursor rest (ok t) = before_it cursor (rest t)

  -- The loop of "fire_all"; `room` is what `max_catchup` still allows.
  unfoldable pub fire_every : ℕ → Recurrence → ℕ → ℕ → Result Evaluation
  fire_every zero r cutoff cursor = ok (record { occurrences = []; next_fire_at = cursor })
  fire_every (suc room) r cutoff cursor =
      let rest = fire_every room r cutoff in
      if leb cursor cutoff
      then go_on cursor rest (next r cursor)
      else ok (record { occurrences = []; next_fire_at = cursor })

  unfoldable pub catch_up : CatchupPolicy → Recurrence → ℕ → ℕ → ℕ → Result Evaluation
  catch_up skip r room due cutoff = and_next [] (next r cutoff)
  catch_up fire_once r room due cutoff = fire_latest r due cutoff (latest r due cutoff)
  catch_up fire_all r room due cutoff = fire_every room r cutoff due

  -- _evaluate_base
  unfoldable pub evaluate_base : Recurrence → CatchupPolicy → ℕ → Bool → ℕ → ℕ → Result Evaluation
  evaluate_base r policy room initialized due cutoff =
      if ltb cutoff due || not (leb 1 room && leb room 100)
      then raised (validation "schedule_claim")
      else if initialized
      then catch_up policy r room due cutoff
      else and_next [] (next r cutoff)

  abbrev shift_all : ℕ → List ℕ → List ℕ
  shift_all off [] = []
  shift_all off (t ∷ ts) = (t + off) ∷ shift_all off ts

  abbrev shift : ℕ → Result Evaluation → Result Evaluation
  shift off (raised e) = raised e
  shift off (ok v) =
      ok (record { occurrences = shift_all off v.occurrences; next_fire_at = v.next_fire_at + off })

  -- evaluate_schedule, with its offset in seconds
  unfoldable pub evaluate_schedule :
      Recurrence → CatchupPolicy → ℕ → Bool → ℕ → ℕ → ℕ → Result Evaluation
  evaluate_schedule r policy room initialized due cutoff zero =
      evaluate_base r policy room initialized due cutoff
  evaluate_schedule r policy room initialized due cutoff (suc n) =
      let off = seconds (suc n) in
      shift off (evaluate_base r policy room initialized (due - off) (cutoff - off))

-- smear_offset_seconds, for the number that the eight bytes of the digest of an id give
unfoldable pub smear_offset_seconds : (ℕ → ℕ) → ℕ → Option ℕ → ℕ
smear_offset_seconds digest id none = 0
smear_offset_seconds digest id (some zero) = 0
smear_offset_seconds digest id (some (suc n)) = digest id % suc n
