-- ===== src/Effects/Keeps.antt =====
-- Relations between the state before and after an action, with one rule for each way to build it.
use outlabs_taskq.Prelude.{
  ◌≡◌, refl, sym, ◌∙◌, subst, Bool, true, false, Option, none, some, List, [], ◌∷◌, if◌then◌else◌,
}
use outlabs_taskq.Effects.{
  Error, Result, ok, raised, Action, pure, throw, gets, require, modify, raise_if, when, and_then,
  ◌>>=◌, for_each,
}

pub record IsPreorder {S : Type 0} (R : S → S → Type 0) : Type 0 where
  pub refl_at : (s : S) → R s s
  pub trans_at : (s t u : S) → R s t → R t u → R s u

-- `m` relates the state before to the state after, whether it returns or raises.
pub record Keeps {S A : Type 0} (R : S → S → Type 0) (m : Action S A) : Type 0 where
  pub at : (s : S) → R s (m s).1

module _ {S : Type 0} {R : S → S → Type 0} (pre : IsPreorder R) where
  module _ {A : Type 0} where
    pub Keeps-pure : (a : A) → Keeps R (pure {S = S} a)
    Keeps-pure a = record { at = pre.refl_at }

    pub Keeps-throw : (e : Error) → Keeps R (throw {S = S} {A = A} e)
    Keeps-throw e = record { at = pre.refl_at }

    pub Keeps-gets : (f : S → A) → Keeps R (gets f)
    Keeps-gets f = record { at = pre.refl_at }

    pub Keeps-require : (e : Error) (o : Option A) → Keeps R (require {S = S} e o)
    Keeps-require e none = record { at = pre.refl_at }
    Keeps-require e (some a) = record { at = pre.refl_at }

  pub Keeps-modify : (f : S → S) → ((s : S) → R s (f s)) → Keeps R (modify f)
  Keeps-modify f h = record { at = h }

  pub Keeps-raise_if : (b : Bool) (e : Error) → Keeps R (raise_if {S = S} b e)
  Keeps-raise_if true e = record { at = pre.refl_at }
  Keeps-raise_if false e = record { at = pre.refl_at }

  pub Keeps-when : (b : Bool) (m : Action S Unit) → Keeps R m → Keeps R (when b m)
  Keeps-when true m k = k
  Keeps-when false m k = record { at = pre.refl_at }

  pub Keeps-if :
      {A : Type 0} (b : Bool) (m n : Action S A)
      → Keeps R m
      → Keeps R n
      → Keeps R (if b then m else n)
  Keeps-if true m n km kn = km
  Keeps-if false m n km kn = kn

  module _ {A B : Type 0} where
    and_then-Keeps :
        (r : Result A) (f : A → Action S B) → ((a : A) → Keeps R (f a)) → Keeps R (and_then r f)
    and_then-Keeps (ok a) f k = record { at = (k a).at }
    and_then-Keeps (raised e) f k = record { at = pre.refl_at }

    pub Keeps-bind :
        (m : Action S A) (f : A → Action S B)
        → Keeps R m
        → ((a : A) → Keeps R (f a))
        → Keeps R (m >>= f)
    Keeps-bind m f km kf = record {
      at = λ s. let (r, s') = m s in pre.trans_at s s' _ (km.at s) ((and_then-Keeps r f kf).at s');
    }

  pub Keeps-for_each :
      {A : Type 0} (xs : List A) (body : A → Action S Unit)
      → ((a : A) → Keeps R (body a))
      → Keeps R (for_each xs body)
  unfolding for_each
  Keeps-for_each [] body k = record { at = pre.refl_at }
  Keeps-for_each (x ∷ xs) body k =
      Keeps-bind (body x) (λ _. for_each xs body) (k x) (λ _. Keeps-for_each xs body k)

-- The action only reads.
abbrev pub Same : {S : Type 0} → S → S → Type 0
Same s t = t ≡ s

pub Same-IsPreorder : {S : Type 0} → IsPreorder (Same {S = S})
Same-IsPreorder = record { refl_at = λ s. refl; trans_at = λ s t u p q. q ∙ p }

module _ {S : Type 0} {R : S → S → Type 0} (pre : IsPreorder R) {A B : Type 0} where
  then_at :
      (r : Result A) (f : A → Action S B) (s : S)
      → ((a : A) → R s (f a s).1)
      → R s (and_then r f s).1
  then_at (ok a) f s h = h a
  then_at (raised e) f s h = pre.refl_at s

  -- What follows an action that only reads starts from the same state.
  pub after_read :
      (m : Action S A) (f : A → Action S B) (s : S)
      → Keeps Same m
      → ((a : A) → R s (f a s).1)
      → R s ((m >>= f) s).1
  after_read m f s k h =
      subst (λ t. R s (and_then (m s).0 f t).1) (sym (k.at s)) (then_at (m s).0 f s h)

  -- What follows an action that is known at one state.
  pub after_step :
      (m : Action S A) (f : A → Action S B) (s : S)
      → R s (m s).1
      → ((a : A) → Keeps R (f a))
      → R s ((m >>= f) s).1
  after_step m f s h k =
      pre.trans_at s (m s).1 _ h (then_at (m s).0 f (m s).1 (λ a. (k a).at (m s).1))

pub ruleset keeps_rules = (
  Keeps-pure, Keeps-throw, Keeps-gets, Keeps-require, Keeps-raise_if, Keeps-when, Keeps-bind,
  Keeps-for_each,
)
