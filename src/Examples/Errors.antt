-- ===== src/Examples/Errors.antt =====
-- Concrete inputs for the theorems on errors and their codes.
use outlabs_taskq.Prelude.{ℕ, ◌≡◌, refl, String, none, some, List, [], ◌∷◌, true, distinct, nat_eq}
use outlabs_taskq.Dict.{get}
use outlabs_taskq.Errors.{new_error, error_type}
use outlabs_taskq.Errors.Exceptions.{
  Raised, Heap, missing, string, exception_chain, taskq_error_from_exception, code_of_state,
  candidate_state,
}
use outlabs_taskq.Errors.Chain.{exception_chain-distinct, error_from_exception-orig}

-- An SQLAlchemy error that wraps a driver's error, which points back at it.
abbrev wrapper : Raised
wrapper = record {
  orig = some 2;
  cause = some 2;
  context = none;
  sqlstate = missing;
  pgcode = missing;
}

abbrev driver_error : Raised
driver_error = record wrapper {
  orig = none;
  cause = none;
  context = some 1;
  sqlstate = string "57P01";
}

abbrev heap : Heap
heap = (1, wrapper) ∷ (2, driver_error) ∷ []

exception_chain-distinct_example :
    (t : List ℕ) × (exception_chain heap 1 ≡ some (1 ∷ t)) × (distinct (1 ∷ t) ≡ true)
exception_chain-distinct_example = exception_chain-distinct heap 1

error_from_exception-orig_example :
    taskq_error_from_exception (λ s. s) heap 1
    ≡ some (
        new_error {V = String}
          (λ s. s)
          (error_type (code_of_state (some "57P01")))
          []
          (some 1)
          none)
unfolding get candidate_state
error_from_exception-orig_example =
    error_from_exception-orig (λ s. s) heap 1 2 wrapper driver_error "57P01" refl refl refl refl
      refl refl
