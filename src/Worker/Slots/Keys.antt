-- ===== src/Worker/Slots/Keys.antt =====
-- Lists of keys without repetition: an entry behind the others, and one taken out.
use outlabs_taskq.Prelude.{
  ◌-◌, ◌≤◌, ◌≡◌, refl, true, false, not, ◌&&◌, ◌||◌, List, [], ◌∷◌, ◌++◌, if◌then◌else◌, nat_eq,
  pair_eq, arith, contains, distinct, length, remove_first, inl, inr, Bool-cases, Eq, subst,
}

module _ {A : Type 0} ⦃e : Eq A⦄ where
  pub contains-snoc :
      (k key : A) (keys : List A) → contains k (keys ++ key ∷ []) ≡ contains k keys || e.beq key k
  unfolding contains
  contains-snoc k key [] = ground arith
  contains-snoc k key (j ∷ js) = ground (arith, contains-snoc k key js)

  pub distinct-snoc :
      (key : A) (keys : List A)
      → distinct keys ≡ true
      → contains key keys ≡ false
      → distinct (keys ++ key ∷ []) ≡ true
  unfolding distinct contains
  distinct-snoc key [] d new = refl
  distinct-snoc key (j ∷ js) d new = ground (
    arith,
    d,
    new,
    distinct-snoc key js,
    contains-snoc j key js,
    e.is_exact j key,
    e.is_exact key j,
  )

  pub contains-remove_first :
      (k key : A) (keys : List A)
      → distinct keys ≡ true
      → contains k (remove_first key keys) ≡ not (e.beq key k) && contains k keys
  unfolding distinct contains remove_first
  contains-remove_first k key [] d = ground arith
  contains-remove_first k key (j ∷ js) d = elim (Bool-cases (e.beq j key)) [
    | inl same ↦
        let is : j ≡ key = (e.is_exact j key).0 same in
        let alone : contains key js ≡ false =
          subst (λ x. contains x js ≡ false) is (ground (arith, d)) in
        rw (same, remove_first)
          (elim (Bool-cases (e.beq key k)) [
            | inl here ↦
                let there : key ≡ k = (e.is_exact key k).0 here in
                let gone : contains k js ≡ false = subst (λ x. contains x js ≡ false) there alone in
                ground (arith, here, gone)
            | inr other ↦ ground (arith, other, e.is_exact j k, e.is_exact key k, same, is)
          ])
    | inr other ↦
        rw (other, remove_first)
          (ground (
            arith,
            contains-remove_first k key js,
            d,
            e.is_exact j k,
            e.is_exact key k,
            e.is_exact j key,
            other,
          ))
  ]

  pub length-remove_first :
      (key : A) (keys : List A)
      → length (remove_first key keys)
        ≡ (if contains key keys then length keys - 1 else length keys)
  unfolding contains remove_first
  length-remove_first key [] = refl
  length-remove_first key (j ∷ js) = elim (Bool-cases (e.beq j key)) [
    | inl same ↦ rw (same, remove_first) (ground (arith, same))
    | inr other ↦
        rw (other, remove_first)
          (ground (arith, other, length-remove_first key js, contains-length key js))
  ]
    where
      contains-length : (key : A) (keys : List A) → contains key keys ≡ true → 1 ≤ length keys
      contains-length key [] c = absurd cc
      contains-length key (j ∷ js) c = omega arith

  pub distinct-remove_first :
      (key : A) (keys : List A) → distinct keys ≡ true → distinct (remove_first key keys) ≡ true
  unfolding distinct remove_first
  distinct-remove_first key [] d = refl
  distinct-remove_first key (j ∷ js) d = elim (Bool-cases (e.beq j key)) [
    | inl same ↦ rw (same, remove_first) (ground (arith, d))
    | inr other ↦
        rw (other, remove_first)
          (ground (arith, d, distinct-remove_first key js, contains-remove_first j key js))
  ]
