-- ===== src/Dict.antt =====
-- Python's `dict`, which keeps the order of insertion. The functions run in tests; proofs go by
-- `dict_laws`.
use outlabs_taskq.Prelude.{
  ◌≡◌, refl, Option, none, some, List, [], ◌∷◌, map, arith, Eq, if◌then◌else◌, beq_refl,
}

abbrev pub Dict {ℓ κ} : Type ℓ → Type κ → Type (ℓ ⊔ κ)
Dict K V = List (K × V)

module _ {ℓ κ} {K : Type ℓ} {V : Type κ} where
  -- d.values()
  abbrev pub values : Dict K V → List V
  values d = map (λ kv. kv.1) d

  -- list(d)
  abbrev pub keys : Dict K V → List K
  keys d = map (λ kv. kv.0) d

module _ {ℓ κ} {K : Type ℓ} {V : Type κ} where
  -- each value, changed in place
  unfoldable pub map_values : (V → V) → Dict K V → Dict K V
  map_values f [] = []
  map_values f ((k, v) ∷ d) = (k, f v) ∷ map_values f d

abbrev pub map_option {ℓ} : {V : Type ℓ} → (V → V) → Option V → Option V
map_option f none = none
map_option f (some v) = some (f v)

module _ {ℓ κ} {K : Type ℓ} {V : Type κ} ⦃e : Eq K⦄ where
  -- d.get(k)
  unfoldable pub get : K → Dict K V → Option V
  get k [] = none
  get k ((j, v) ∷ d) = if e.beq j k then some v else get k d

  -- d[k] = v: in place where the key is present, else at the end
  unfoldable pub put : K → V → Dict K V → Dict K V
  put k v [] = (k, v) ∷ []
  put k v ((j, w) ∷ d) = if e.beq j k then (k, v) ∷ d else (j, w) ∷ put k v d

  -- d.pop(k, None), del d[k]
  unfoldable pub delete : K → Dict K V → Dict K V
  delete k [] = []
  delete k ((j, w) ∷ d) = let rest = delete k d in if e.beq j k then rest else (j, w) ∷ rest

  pub get-put :
      (k j : K) (v : V) (d : Dict K V) → get j (put k v d) ≡ (if e.beq k j then some v else get j d)
  unfolding get put
  get-put k j v [] = refl
  get-put k j v ((i, w) ∷ d) =
      ground (arith, get-put k j v d, e.is_exact i k, e.is_exact i j, e.is_exact k j)

  pub get-delete :
      (k j : K) (d : Dict K V) → get j (delete k d) ≡ (if e.beq k j then none else get j d)
  unfolding get delete
  get-delete k j [] = ground arith
  get-delete k j ((i, w) ∷ d) =
      ground (arith, get-delete k j d, e.is_exact i k, e.is_exact i j, e.is_exact k j)

  pub get-map_values :
      (k : K) (f : V → V) (d : Dict K V) → get k (map_values f d) ≡ map_option f (get k d)
  unfolding get map_values
  get-map_values k f [] = refl
  get-map_values k f ((i, w) ∷ d) = ground (arith, get-map_values k f d)

  pub get-put_self : (k : K) (v : V) (d : Dict K V) → get k (put k v d) ≡ some v
  get-put_self k v d = simp (get-put, beq_refl)

pub ruleset dict_laws = (get-put, get-delete, get-map_values, beq_refl)
