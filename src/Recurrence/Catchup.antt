-- ===== src/Recurrence/Catchup.antt =====
-- What `evaluate_schedule` of schedules.py hands back for overdue schedules.
use outlabs_taskq.Prelude.{
  ◌==◌, ◌*◌, nat_eq, Bool-cases, ℕ, zero, suc, ◌+◌, ◌≤◌, ◌<◌, ◌≡◌, ◌⊎◌, inl, inr, refl, subst, ◌||◌,
  Bool, true, false, not, ◌&&◌, List, [], ◌∷◌, ltb, leb, String, Option, none, some, length, arith,
  if◌then◌else◌,
}
use outlabs_taskq.Effects.{Result, ok, raised, validation}
use outlabs_taskq.Protocol.{fire_all, Recurrence, interval, cron, seconds}
use outlabs_taskq.Recurrence.{
  Calendar, Evaluation, is_cron, or_invalid, search_next, cron_next, next, fire_every, go_on,
  before_it, is_after, resolved_wall_time, catch_up, evaluate_base, evaluate_schedule,
}

module _ (calendar : Calendar) where
  -- The wall time of a round, resolved.
  abbrev pub round_at : String → String → ℕ → ℕ → Option ℕ
  round_at expression zone local k =
      resolved_wall_time calendar zone (calendar.next_wall expression local k)

  -- What follows an instant: the interval later; or the first wall time of the cron, behind the local
  -- time of the instant, that resolves to a later one.
  abbrev pub IsNext : Recurrence → ℕ → ℕ → Type 0
  IsNext (interval n) t u = u ≡ t + n * 1000000
  IsNext (cron expression zone) t u =
      (k : ℕ) × (round_at expression zone (calendar.to_local zone t) k ≡ some u)
      × ((j : ℕ)
          → j < k
          → is_after calendar t (round_at expression zone (calendar.to_local zone t) j) ≡ false)

  -- The first round from `i` with a later instant.
  FirstFrom : String → String → ℕ → ℕ → ℕ → ℕ → Type 0
  FirstFrom expression zone local after i t =
      (k : ℕ) × (round_at expression zone local k ≡ some t)
      × (after < t)
      × ((j : ℕ)
          → i ≤ j
          → j < k
          → is_after calendar after (round_at expression zone local j) ≡ false)

  is_after-lt :
      (after t : ℕ) (o : Option ℕ) → is_after calendar after o ≡ true → o ≡ some t → after < t
  is_after-lt after t none h e = absurd cc
  is_after-lt after t (some u) h e = ground (arith, h, e)

  later_rounds : (i j : ℕ) (P : ℕ → Type 0) → P i → ((j : ℕ) → i + 1 ≤ j → P j) → i ≤ j → P j
  later_rounds i j P here rest le = elim (Bool-cases (i == j)) [
    | inl same ↦ subst P ((nat_eq.is_exact i j).0 same) here
    | inr other ↦ rest j (ground (arith, le, other))
  ]

  search_next-FirstFrom :
      (fuel i : ℕ) (expression zone : String) (local after t : ℕ)
      → search_next calendar fuel i expression zone local after ≡ some t
      → FirstFrom expression zone local after i t
  unfolding search_next FirstFrom
  search_next-FirstFrom zero i expression zone local after t e = absurd cc
  search_next-FirstFrom (suc fuel) i expression zone local after t e =
      elim (Bool-cases (is_after calendar after (round_at expression zone local i))) [
        | inl hit ↦
            let found : round_at expression zone local i ≡ some t = ground (arith, e, hit) in
            (
              i,
              found,
              is_after-lt after t (round_at expression zone local i) hit found,
              λ j le lt. absurd (omega (arith, le, lt)),
            )
        | inr miss ↦
            let rest : search_next calendar fuel (i + 1) expression zone local after ≡ some t =
              ground (arith, e, miss) in
            let (k, found, later, before) =
              search_next-FirstFrom fuel (i + 1) expression zone local after t rest in
            (
              k,
              found,
              later,
              λ j le lt.
                  later_rounds i j
                    (λ j.
                      j < k → is_after calendar after (round_at expression zone local j) ≡ false)
                    (λ under. miss) before le lt,
            )
      ]

  guarded :
      (b : Bool) (x : Result ℕ) (t : ℕ)
      → (if b then x else raised (validation "recurrence")) ≡ ok t
      → (b ≡ true) × (x ≡ ok t)
  guarded true x t e = (refl, e)
  guarded false x t e = absurd cc

  found : (o : Option ℕ) (t : ℕ) → or_invalid calendar o ≡ ok t → o ≡ some t
  found none t e = absurd cc
  found (some u) t e = cc

  step-IsNext :
      (n after t : ℕ)
      → leb 60 n && leb n 31536000 ≡ true
      → ok (after + seconds n) ≡ ok t
      → (after < t) × (t ≡ after + n * 1000000)
  step-IsNext n after t b e =
      let same : after + seconds n ≡ t = cc in
      let low : 60 ≤ n = ground arith in (omega (arith, same, low), omega (arith, same))

  next-IsNext :
      (r : Recurrence) (after t : ℕ) → next calendar r after ≡ ok t → (after < t) × IsNext r after t
  unfolding next cron_next FirstFrom
  next-IsNext (interval n) after t e =
      let (b, x) = guarded (leb 60 n && leb n 31536000) (ok (after + seconds n)) t e in
      step-IsNext n after t b x
  next-IsNext (cron expression zone) after t e =
      let (b, x) = guarded (is_cron calendar expression zone) _ t e in
      let (k, is, later, before) =
        search_next-FirstFrom 370 0 expression zone (calendar.to_local zone after) after t
          (found _ t x) in
      (later, (k, is, λ j lt. before j (omega arith) lt))

  -- The occurrences are the due instant and the ones that follow it one by one, in order and none
  -- left out; all are due, and the next fire is what follows the last.
  abbrev pub Lattice : Recurrence → ℕ → ℕ → List ℕ → ℕ → Type 0
  Lattice r cutoff cursor [] last = cursor ≡ last
  Lattice r cutoff cursor (t ∷ ts) last =
      (t ≡ cursor) × (t ≤ cutoff) × ((u : ℕ) × (t < u) × IsNext r t u × Lattice r cutoff u ts last)

  -- What "fire_all" promises: at most `room` instants, and the next one is not due any more or the
  -- room is used up.
  pub record Caught (r : Recurrence) (room cutoff due : ℕ) (v : Evaluation) : Type 0 where
    pub bounded : length v.occurrences ≤ room
    pub lattice : Lattice r cutoff due v.occurrences v.next_fire_at
    pub complete : (cutoff < v.next_fire_at) ⊎ (length v.occurrences ≡ room)

  ok_injective : (u v : Evaluation) → ok u ≡ ok v → u ≡ v
  ok_injective u v e = cc

  accepted :
      (b : Bool) (x : Result Evaluation) (v : Evaluation)
      → (if b then raised (validation "schedule_claim") else x) ≡ ok v
      → x ≡ ok v
  accepted true x v e = absurd cc
  accepted false x v e = e

  split :
      (r : Recurrence) (room cutoff due : ℕ) (b : Bool) (x : Result Evaluation) (v : Evaluation)
      → (if b then x else ok (record { occurrences = []; next_fire_at = due })) ≡ ok v
      → (b ≡ true → x ≡ ok v → Caught r room cutoff due v)
      → (b ≡ false → Caught r room cutoff due (record { occurrences = []; next_fire_at = due }))
      → Caught r room cutoff due v
  split r room cutoff due true x v e h k = h refl e
  split r room cutoff due false x v e h k =
      subst (λ u. Caught r room cutoff due u) (ok_injective _ v e) (k refl)

  none_due :
      (r : Recurrence) (room cutoff due : ℕ)
      → (cutoff < due) ⊎ (0 ≡ room)
      → Caught r room cutoff due (record { occurrences = []; next_fire_at = due })
  none_due r room cutoff due e = record { bounded = omega arith; lattice = refl; complete = e }

  one_more :
      (r : Recurrence) (room cutoff due t : ℕ) (v : Evaluation)
      → due ≤ cutoff
      → (due < t) × IsNext r due t
      → Caught r room cutoff t v
      → Caught r
          (suc room)
          cutoff
          due
          (record { occurrences = due ∷ v.occurrences; next_fire_at = v.next_fire_at })
  one_more r room cutoff due t v le follows c = record {
    bounded = omega (arith, c.bounded);
    lattice = (refl, le, (t, follows.0, follows.1, c.lattice));
    complete = elim c.complete [ inl past ↦ inl past | inr full ↦ inr (omega (arith, full)) ];
  }

  Caught-before_it :
      (r : Recurrence) (room cutoff due t : ℕ) (rest : Result Evaluation) (v : Evaluation)
      → due ≤ cutoff
      → (due < t) × IsNext r due t
      → ((v' : Evaluation) → rest ≡ ok v' → Caught r room cutoff t v')
      → before_it calendar due rest ≡ ok v
      → Caught r (suc room) cutoff due v
  Caught-before_it r room cutoff due t (raised x) v le less h e = absurd cc
  Caught-before_it r room cutoff due t (ok v') v le less h e =
      subst (λ u. Caught r (suc room) cutoff due u) (ok_injective _ v e)
        (one_more r room cutoff due t v' le less (h v' refl))

  Caught-go_on :
      (r : Recurrence) (room cutoff due : ℕ) (n : Result ℕ) (rest : ℕ → Result Evaluation)
      (v : Evaluation)
      → due ≤ cutoff
      → ((t : ℕ) → n ≡ ok t → (due < t) × IsNext r due t)
      → ((t : ℕ) (v' : Evaluation) → rest t ≡ ok v' → Caught r room cutoff t v')
      → go_on calendar due rest n ≡ ok v
      → Caught r (suc room) cutoff due v
  Caught-go_on r room cutoff due (raised x) rest v le less h e = absurd cc
  Caught-go_on r room cutoff due (ok t) rest v le less h e =
      Caught-before_it r room cutoff due t (rest t) v le (less t refl) (h t) e

  fire_every-Caught :
      (room : ℕ) (r : Recurrence) (cutoff due : ℕ) (v : Evaluation)
      → fire_every calendar room r cutoff due ≡ ok v
      → Caught r room cutoff due v
  unfolding fire_every
  fire_every-Caught zero r cutoff due v e =
      subst (λ u. Caught r 0 cutoff due u) (ok_injective _ v e) (none_due r 0 cutoff due (inr refl))
  fire_every-Caught (suc room) r cutoff due v e =
      let rest = fire_every-Caught room r cutoff in
      split r (suc room) cutoff due (leb due cutoff) _ v e
        (λ le.
          Caught-go_on r room cutoff due (next calendar r due) (fire_every calendar room r cutoff) v
            (ground arith) (next-IsNext r due) rest)
        (λ gt. none_due r (suc room) cutoff due (inl (ground arith)))

  -- A schedule that has fired before is evaluated under "fire_all", at an instant that it is due and
  -- without an offset. Where that returns, the instants are the one that was due and those that
  -- follow it by the interval or the cron, one after the other with none left out and none past the
  -- claim, at most `max_catchup`; the next fire follows the last of them, and lies past the claim
  -- unless `max_catchup` instants fired.
  pub evaluate-fire_all :
      (r : Recurrence) (room due cutoff : ℕ) (v : Evaluation)
      → evaluate_schedule calendar r fire_all room true due cutoff 0 ≡ ok v
      → Caught r room cutoff due v
  unfolding evaluate_schedule evaluate_base catch_up
  evaluate-fire_all r room due cutoff v e =
      fire_every-Caught room r cutoff due v
        (accepted (ltb cutoff due || not (leb 1 room && leb room 100)) _ v e)
