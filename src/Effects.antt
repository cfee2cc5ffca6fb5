-- ===== src/Effects.antt =====
-- Methods that mutate an object and may raise. What was written before a raise stays written, so
-- the state comes back beside the error too.
pub mod Keeps
use outlabs_taskq.Prelude.{ℕ, Bool, true, false, String, Option, none, some, List, [], ◌∷◌}

-- errors.py, as far as the modelled code raises it. `reason` is `details["reason"]` or
-- `details["field"]`, and `current` the `current_version` of a schedule conflict. `config` is
-- TaskqConfigError, `invalid_model` the ValidationError of a Pydantic model, and `crash` an
-- AssertionError or KeyError of Python's.
pub data Error : Type 0 where
  not_found internal config invalid_model crash : Error
  validation : (reason : String) → Error
  conflict : (reason : String) (current : Option ℕ) → Error

pub data Result {ℓ} (A : Type ℓ) : Type ℓ where
  ok : A → Result A
  raised : Error → Result A

abbrev pub Action {ℓ} : Type ℓ → Type ℓ → Type ℓ
Action S A = S → Result A × S

module _ {ℓ} {S A : Type ℓ} where
  abbrev pub pure : A → Action S A
  pure a s = (ok a, s)

  abbrev pub throw : Error → Action S A
  throw e s = (raised e, s)

  abbrev pub gets : (S → A) → Action S A
  gets f s = (ok (f s), s)

  -- d[k], or `if x is None: raise`
  abbrev pub require : Error → Option A → Action S A
  require e (some a) s = (ok a, s)
  require e none s = (raised e, s)

abbrev pub modify : {S : Type 0} → (S → S) → Action S Unit
modify f s = (ok tt, f s)

-- if b: raise e
abbrev pub raise_if : {S : Type 0} → Bool → Error → Action S Unit
raise_if true e s = (raised e, s)
raise_if false e s = (ok tt, s)

-- if b: body
abbrev pub when : {S : Type 0} → Bool → Action S Unit → Action S Unit
when true body = body
when false body = pure tt

module _ {ℓ} {S A B : Type ℓ} where
  abbrev pub and_then : Result A → (A → Action S B) → Action S B
  and_then (ok a) f s = f a s
  and_then (raised e) f s = (raised e, s)

  infixl 5 ◌>>=◌ ◌>>◌
  abbrev pub ◌>>=◌ : Action S A → (A → Action S B) → Action S B
  ◌>>=◌ m f s = let (r, s') = m s in and_then r f s'

  abbrev pub ◌>>◌ : Action S A → Action S B → Action S B
  m >> n = m >>= λ _. n

module _ {S A : Type 0} where
  -- for x in xs: body(x)
  unfoldable pub for_each : List A → (A → Action S Unit) → Action S Unit
  for_each [] body = pure tt
  for_each (x ∷ xs) body = body x >>= λ _. for_each xs body
