-- ===== src/Scheduler/Paging.antt =====
-- The pages of owned schedules in scheduler.py give what one listing of all would give.
use outlabs_taskq.Prelude.{
  ℕ, ◌≤◌, ◌<◌, ◌≡◌, ◌∙◌, refl, sym, ap, true, false, String, Option, some, none, List, [], ◌∷◌,
  ◌++◌, length, take, ltb, arith, zero, suc, string_eq, inl, inr, Bool-cases,
}
use outlabs_taskq.Dict.{Dict, put}
use outlabs_taskq.Scheduler.{Profile, last_name, add_page, list_pages, current_owned}

-- How a listing in pages answers: from the start, or behind the profile of a name.
pub record IsPaged (all : List Profile) (page : ℕ → Option String → List Profile) : Type 0 where
  pub from_start : (limit : ℕ) → page limit none ≡ take limit all
  pub from_name :
      (limit : ℕ) (front rest : List Profile) (p : Profile)
      → all ≡ front ++ p ∷ rest
      → page limit (some p.name) ≡ take limit rest

abbrev drop : ℕ → List Profile → List Profile
drop zero xs = xs
drop (suc n) [] = []
drop (suc n) (x ∷ xs) = drop n xs

add_page-append :
    (ps qs : List Profile) (d : Dict String Profile)
    → add_page (ps ++ qs) d ≡ add_page qs (add_page ps d)
unfolding add_page
add_page-append [] qs d = refl
add_page-append (p ∷ ps) qs d = add_page-append ps qs (put p.manifest_key p d)

take-drop : (n : ℕ) (xs : List Profile) → take n xs ++ drop n xs ≡ xs
take-drop zero xs = refl
take-drop (suc n) [] = refl
take-drop (suc n) (x ∷ xs) = rw (take-drop n xs) refl

take-short : (n : ℕ) (xs : List Profile) → length (take n xs) < n → take n xs ≡ xs
take-short zero xs short = absurd (omega (arith, short))
take-short (suc n) [] short = refl
take-short (suc n) (x ∷ xs) short = rw (take-short n xs (omega (arith, short))) refl

length-drop : (n : ℕ) (xs : List Profile) → length (drop n xs) ≤ length xs
length-drop zero xs = omega arith
length-drop (suc n) [] = omega arith
length-drop (suc n) (x ∷ xs) = omega (arith, length-drop n xs)

append_assoc : (xs ys zs : List Profile) → (xs ++ ys) ++ zs ≡ xs ++ (ys ++ zs)
append_assoc [] ys zs = refl
append_assoc (x ∷ xs) ys zs = rw (append_assoc xs ys zs) refl

-- A page that is not empty ends with the profile of its last name.
last-split :
    (name : String) (x : Profile) (xs : List Profile)
    → (f : List Profile) × (q : Profile) × (x ∷ xs ≡ f ++ q ∷ [])
      × (last_name name (x ∷ xs) ≡ q.name)
last-split name x [] = ([], x, refl, refl)
last-split name x (y ∷ ys) =
    let (f, q, is, named) = last-split x.name y ys in (x ∷ f, q, ap (λ l. x ∷ l) is, named)

module _ (all : List Profile) (page : ℕ → Option String → List Profile)
    (paged : IsPaged all page) where
  -- The page behind the last name of a page starts with what that page left.
  next-page :
      (limit : ℕ) (front ps rest : List Profile) (x : Profile)
      → all ≡ front ++ ((x ∷ ps) ++ rest)
      → page limit (some (last_name "" (x ∷ ps))) ≡ take limit rest
  next-page limit front ps rest x is =
      let (f, q, split, named) = last-split "" x ps in
      let whole : all ≡ (front ++ f) ++ q ∷ rest =
        is
        ∙ ap (λ l. front ++ (l ++ rest)) split
        ∙ ap (λ l. front ++ l) (append_assoc f (q ∷ []) rest)
        ∙ sym (append_assoc front f (q ∷ rest)) in
      ap (λ n. page limit (some n)) named ∙ paged.from_name limit (front ++ f) rest q whole

  module _ (limit fuel : ℕ) (after : Option String) (ps : List Profile)
      (result : Dict String Profile) (here : page limit after ≡ ps) where
    list_pages-last :
        length ps < limit
        → list_pages page limit (suc fuel) after result ≡ some (add_page ps result)
    unfolding list_pages
    list_pages-last short =
        let is_short : ltb (length ps) limit ≡ true = ground (arith, short) in
        rw (here, is_short) refl

    list_pages-next :
        limit ≤ length ps
        → list_pages page limit (suc fuel) after result
          ≡ list_pages page limit fuel (some (last_name "" ps)) (add_page ps result)
    unfolding list_pages
    list_pages-next full =
        let is_full : ltb (length ps) limit ≡ false = ground (arith, full) in
        rw (here, is_full) refl

  list_pages-all :
      (l fuel : ℕ) (front rest : List Profile) (after : Option String)
      (result : Dict String Profile)
      → all ≡ front ++ rest
      → page (suc l) after ≡ take (suc l) rest
      → length rest < fuel
      → list_pages page (suc l) fuel after result ≡ some (add_page rest result)
  list_pages-all l zero front rest after result is here enough = absurd (omega (arith, enough))
  list_pages-all l (suc fuel) front [] after result is here enough =
      list_pages-last (suc l) fuel after [] result here (omega arith)
  list_pages-all l (suc fuel) front (x ∷ xs) after result is here enough =
      let ps : List Profile = x ∷ take l xs in
      elim (Bool-cases (ltb (length ps) (suc l))) [
        | inl short ↦
            list_pages-last (suc l) fuel after ps result here (ground (arith, short))
            ∙ ap (λ qs. some (add_page qs result))
                (take-short (suc l) (x ∷ xs) (ground (arith, short)))
        | inr full ↦
            let split : all ≡ front ++ (ps ++ drop l xs) =
              is ∙ ap (λ qs. front ++ (x ∷ qs)) (sym (take-drop l xs)) in
            list_pages-next (suc l) fuel after ps result here (ground (arith, full))
            ∙ list_pages-all l fuel (front ++ ps) (drop l xs) (some (last_name "" ps))
                (add_page ps result) (split ∙ sym (append_assoc front ps (drop l xs)))
                (next-page (suc l) front (take l xs) (drop l xs) x split)
                (omega (arith, enough, length-drop l xs))
            ∙ ap some (
                sym (add_page-append ps (drop l xs) result)
                ∙ ap (λ qs. add_page (x ∷ qs) result) (take-drop l xs))
      ]

-- For a listing that answers in pages behind a name, and more fuel than there are profiles, the loop
-- ends with the dict of one listing of all.
pub current_owned-all :
    (all : List Profile) (page : ℕ → Option String → List Profile) (fuel : ℕ)
    → IsPaged all page
    → length all < fuel
    → current_owned page fuel ≡ some (add_page all [])
unfolding current_owned
current_owned-all all page fuel paged enough =
    list_pages-all all page paged 499 fuel [] all none [] refl (paged.from_start 500) enough
