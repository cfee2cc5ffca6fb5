-- ===== src/Errors/Chain.antt =====
-- The chain of exceptions in errors.py: the search ends, and which state it finds.
use outlabs_taskq.Prelude.{
  ℕ, ◌+◌, ◌*◌, ◌≤◌, ◌<◌, ◌≡◌, ◌∙◌, refl, sym, ap, subst, arith, true, false, String, none, some,
  if◌then◌else◌, nat_eq, ◌==◌, List, [], ◌∷◌, ◌++◌, inl, inr, Bool-cases, Option-cases, contains,
  distinct, length, length-append, ◌||◌, zero, suc,
}
use outlabs_taskq.Dict.{get}
use outlabs_taskq.Errors.{new_error, error_type}
use outlabs_taskq.Errors.Exceptions.{
  Heap, Raised, walk, exception_chain, add_candidates, candidates, listed, candidate_state,
  first_state, state_at, code_of_state, chained_error, taskq_error_from_exception,
}

-- The exceptions of the heap that were not taken yet.
unfoldable unseen : Heap → List ℕ → ℕ
unfolding contains
unseen [] result = 0
unseen ((id, e) ∷ heap) result =
    let rest = unseen heap result in if contains id result then rest else rest + 1

contains-snoc : (a b : ℕ) (xs : List ℕ) → contains a (xs ++ b ∷ []) ≡ contains a xs || b == a
unfolding contains
contains-snoc a b [] = ground arith
contains-snoc a b (x ∷ xs) = ground (arith, contains-snoc a b xs)

unseen-snoc :
    (heap : Heap) (id : ℕ) (result : List ℕ) → unseen heap (result ++ id ∷ []) ≤ unseen heap result
unfolding unseen
unseen-snoc [] id result = omega arith
unseen-snoc ((j, e) ∷ heap) id result =
    ground (arith, unseen-snoc heap id result, contains-snoc j id result)

unseen-taken :
    (heap : Heap) (id : ℕ) (e : Raised) (result : List ℕ)
    → get id heap ≡ some e
    → contains id result ≡ false
    → unseen heap (result ++ id ∷ []) < unseen heap result
unfolding unseen get
unseen-taken [] id e result found new = absurd cc
unseen-taken ((j, e') ∷ heap) id e result found new = ground (
  arith,
  found,
  new,
  unseen-taken heap id e result,
  unseen-snoc heap id result,
  contains-snoc j id result,
)

length-candidates : (e : Raised) → length (candidates e) ≤ 3
length-candidates e = ground arith

-- What the fuel has to cover.
abbrev cost : Heap → List ℕ → List ℕ → ℕ
cost heap pending result = 3 * unseen heap result + length pending

module _ (fuel : ℕ) (heap : Heap) (current : ℕ) (pending result : List ℕ) where
  walk-seen :
      contains current result ≡ true
      → walk (suc fuel) heap (current ∷ pending) result ≡ walk fuel heap pending result
  unfolding walk
  walk-seen seen = rw (seen, walk) refl

  walk-new :
      contains current result ≡ false
      → walk (suc fuel) heap (current ∷ pending) result
        ≡ walk fuel heap (pending ++ add_candidates (get current heap)) (result ++ current ∷ [])
  unfolding walk
  walk-new new = rw (new, walk) refl

cost-taken :
    (heap : Heap) (current : ℕ) (pending result : List ℕ)
    → contains current result ≡ false
    → cost heap (pending ++ add_candidates (get current heap)) (result ++ current ∷ [])
      < cost heap (current ∷ pending) result
cost-taken heap current pending result new = elim (Option-cases (get current heap)) [
  | inl absent ↦ rw (absent, length-append) (omega (arith, unseen-snoc heap current result))
  | inr (e, found) ↦
      rw (found, length-append)
        (omega (arith, length-candidates e, unseen-taken heap current e result found new))
]

walk-fuel :
    (fuel : ℕ) (heap : Heap) (pending result : List ℕ)
    → cost heap pending result ≤ fuel
    → (r : List ℕ) × (walk fuel heap pending result ≡ some r)
unfolding walk
walk-fuel fuel heap [] result enough = (result, refl)
walk-fuel zero heap (current ∷ pending) result enough = absurd (omega (arith, enough))
walk-fuel (suc fuel) heap (current ∷ pending) result enough =
    elim (Bool-cases (contains current result)) [
      | inl seen ↦
          rw (walk-seen fuel heap current pending result seen)
            (walk-fuel fuel heap pending result (omega (arith, enough)))
      | inr new ↦ rw (walk-new fuel heap current pending result new) (
          walk-fuel fuel heap (pending ++ add_candidates (get current heap))
            (result ++ current ∷ [])
            (omega (arith, enough, cost-taken heap current pending result new)))
    ]

append_assoc : (xs ys zs : List ℕ) → (xs ++ ys) ++ zs ≡ xs ++ (ys ++ zs)
append_assoc [] ys zs = refl
append_assoc (x ∷ xs) ys zs = rw (append_assoc xs ys zs) refl

append-nil : (xs : List ℕ) → xs ++ [] ≡ xs
append-nil [] = refl
append-nil (x ∷ xs) = rw (append-nil xs) refl

-- The result grows at its end.
walk-result :
    (fuel : ℕ) (heap : Heap) (pending result r : List ℕ)
    → walk fuel heap pending result ≡ some r
    → (t : List ℕ) × (r ≡ result ++ t)
unfolding walk
walk-result fuel heap [] result r e = ([], ground (arith, e, append-nil result))
walk-result zero heap (current ∷ pending) result r e = absurd cc
walk-result (suc fuel) heap (current ∷ pending) result r e =
    elim (Bool-cases (contains current result)) [
      | inl seen ↦
          walk-result fuel heap pending result r
            (sym (walk-seen fuel heap current pending result seen) ∙ e)
      | inr new ↦
          let (t, is) =
            walk-result fuel heap (pending ++ add_candidates (get current heap))
              (result ++ current ∷ []) r
              (sym (walk-new fuel heap current pending result new) ∙ e) in
          (current ∷ t, is ∙ append_assoc result (current ∷ []) t)
    ]

distinct-snoc :
    (a : ℕ) (xs : List ℕ)
    → distinct xs ≡ true
    → contains a xs ≡ false
    → distinct (xs ++ a ∷ []) ≡ true
unfolding distinct contains
distinct-snoc a [] d new = refl
distinct-snoc a (x ∷ xs) d new = ground (arith, d, new, distinct-snoc a xs, contains-snoc x a xs)

-- No exception comes twice.
walk-distinct :
    (fuel : ℕ) (heap : Heap) (pending result r : List ℕ)
    → walk fuel heap pending result ≡ some r
    → distinct result ≡ true
    → distinct r ≡ true
unfolding walk
walk-distinct fuel heap [] result r e d = ground (arith, e, d)
walk-distinct zero heap (current ∷ pending) result r e d = absurd cc
walk-distinct (suc fuel) heap (current ∷ pending) result r e d =
    elim (Bool-cases (contains current result)) [
      | inl seen ↦
          walk-distinct fuel heap pending result r
            (sym (walk-seen fuel heap current pending result seen) ∙ e) d
      | inr new ↦
          walk-distinct fuel heap (pending ++ add_candidates (get current heap))
            (result ++ current ∷ []) r (sym (walk-new fuel heap current pending result new) ∙ e)
            (distinct-snoc current result d new)
    ]

unseen-length : (heap : Heap) (result : List ℕ) → unseen heap result ≤ length heap
unfolding unseen
unseen-length [] result = omega arith
unseen-length ((id, e) ∷ heap) result = ground (arith, unseen-length heap result)

-- In any heap, cycles included, the chain is found, starts with the exception and holds none twice.
pub exception_chain-distinct :
    (heap : Heap) (id : ℕ)
    → (t : List ℕ) × (exception_chain heap id ≡ some (id ∷ t)) × (distinct (id ∷ t) ≡ true)
unfolding exception_chain distinct contains
exception_chain-distinct heap id =
    let fuel : ℕ = suc (3 * length heap) in
    let (r, found) =
      walk-fuel (suc fuel) heap (id ∷ []) [] (omega (arith, unseen-length heap [])) in
    let (t, is) =
      walk-result fuel heap (add_candidates (get id heap)) (id ∷ []) r
        (sym (walk-new fuel heap id [] [] refl) ∙ found) in
    (
      t,
      found ∙ ap some is,
      subst (λ l. distinct l ≡ true) is (walk-distinct (suc fuel) heap (id ∷ []) [] r found refl),
    )

first_state-second :
    (heap : Heap) (id driver : ℕ) (t : List ℕ) {state : String}
    → state_at (get id heap) ≡ none
    → state_at (get driver heap) ≡ some state
    → first_state heap (id ∷ driver ∷ t) ≡ some state
unfolding first_state
first_state-second heap id driver t stateless has_state = rw (stateless, has_state) refl

-- An exception without a state, which wraps another one with a state in `orig`, becomes the error of
-- that state, whatever its cause and context are.
pub error_from_exception-orig :
    (lower : String → String) (heap : Heap) (id driver : ℕ) (e d : Raised) (state : String)
    → get id heap ≡ some e
    → candidate_state e ≡ none
    → e.orig ≡ some driver
    → (id == driver) ≡ false
    → get driver heap ≡ some d
    → candidate_state d ≡ some state
    → taskq_error_from_exception lower heap id
      ≡ some
          (new_error {V = String} lower (error_type (code_of_state (some state))) [] (some id) none)
unfolding taskq_error_from_exception exception_chain chained_error contains
error_from_exception-orig lower heap id driver e d state is_e stateless wraps apart is_d has_state =
    let fuel : ℕ = 3 * length heap in
    let rest : List ℕ = listed e.cause ++ listed e.context in
    let first : walk (suc (suc fuel)) heap (id ∷ []) []
        ≡ walk (suc fuel) heap (driver ∷ rest) (id ∷ []) =
      walk-new (suc fuel) heap id [] [] refl ∙ rw (is_e, wraps) refl in
    let second : walk (suc fuel) heap (driver ∷ rest) (id ∷ [])
        ≡ walk fuel heap (rest ++ candidates d) (id ∷ driver ∷ []) =
      walk-new fuel heap driver rest (id ∷ []) (ground (arith, apart)) ∙ rw is_d refl in
    let (r, found) =
      walk-fuel (suc (suc fuel)) heap (id ∷ []) [] (omega (arith, unseen-length heap [])) in
    let (t, is) =
      walk-result fuel heap (rest ++ candidates d) (id ∷ driver ∷ []) r
        (sym (first ∙ second) ∙ found) in
    let state_found : first_state heap r ≡ some state =
      ap (first_state heap) is
      ∙ first_state-second heap id driver t (ap state_at is_e ∙ stateless)
          (ap state_at is_d ∙ has_state) in
    ap (chained_error lower heap id) found
    ∙ ap (λ s. some (new_error lower (error_type (code_of_state s)) [] (some id) none)) state_found
