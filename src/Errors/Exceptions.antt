-- ===== src/Errors/Exceptions.antt =====
-- errors.py: exceptions of other code become public errors by their states.
use outlabs_taskq.Prelude.{
  ℕ, Bool, true, false, not, ◌||◌, ◌==◌, String, Option, none, some, List, [], ◌∷◌, ◌++◌, contains,
  if◌then◌else◌, string_eq, nat_eq, zero, suc, length, ◌*◌,
}
use outlabs_taskq.Dict.{Dict, get}
use text.Mathlib.Text.{starts_with}
use outlabs_taskq.Errors.{
  TqCode, parse_code, error_type, TaskqError, new_error, internal, unavailable,
}

-- An attribute of an exception: absent or false, a string, or another object that is true.
pub data Attribute : Type 0 where
  missing : Attribute
  string : String → Attribute
  other : Attribute

-- An exception object. `orig`, `cause` and `context` are the ids of the exceptions that stand
-- there; what is no exception is left out.
pub record Raised : Type 0 where
  pub orig : Option ℕ
  pub cause : Option ℕ
  pub context : Option ℕ
  pub sqlstate : Attribute
  pub pgcode : Attribute

abbrev pub Heap : Type 0
Heap = Dict ℕ Raised

abbrev pub listed : Option ℕ → List ℕ
listed none = []
listed (some id) = id ∷ []

abbrev pub candidates : Raised → List ℕ
candidates e = listed e.orig ++ (listed e.cause ++ listed e.context)

abbrev pub add_candidates : Option Raised → List ℕ
add_candidates none = []
add_candidates (some e) = candidates e

-- The loop of _exception_chain, `none` where the fuel ends. The result is also what `seen` holds.
unfoldable pub walk : ℕ → Heap → List ℕ → List ℕ → Option (List ℕ)
unfolding contains get
walk fuel heap [] result = some result
walk zero heap (current ∷ pending) result = none
walk (suc fuel) heap (current ∷ pending) result = elim (contains current result) [
  | true ↦ walk fuel heap pending result
  | false ↦ walk fuel heap (pending ++ add_candidates (get current heap)) (result ++ current ∷ [])
]

-- bool(attribute)
abbrev pub is_true : Attribute → Bool
is_true missing = false
is_true (string s) = not (s == "")
is_true other = true

abbrev pub as_string : Attribute → Option String
as_string (string s) = some s
as_string _ = none

-- getattr(current, "sqlstate", None) or getattr(current, "pgcode", None), if it is a string
unfoldable pub candidate_state : Raised → Option String
candidate_state e = as_string (if is_true e.sqlstate then e.sqlstate else e.pgcode)

abbrev pub state_at : Option Raised → Option String
state_at none = none
state_at (some e) = candidate_state e

abbrev pub or_else : Option String → Option String → Option String
or_else (some s) t = some s
or_else none t = t

-- The first string that an exception of the chain carries.
unfoldable pub first_state : Heap → List ℕ → Option String
unfolding get
first_state heap [] = none
first_state heap (id ∷ ids) = or_else (state_at (get id heap)) (first_state heap ids)

abbrev pub availability_states : List String
availability_states = "53300" ∷ "57P01" ∷ "57P02" ∷ "57P03" ∷ []

-- The code of a state that no TqCode has.
unfoldable pub availability_code : String → TqCode
unfolding contains
availability_code state =
    if starts_with state "08" || contains state availability_states then unavailable else internal

unfoldable pub code_of_state : Option String → TqCode
unfolding parse_code availability_code
code_of_state none = internal
code_of_state (some state) = elim (parse_code state) [
  | none ↦ availability_code state
  | some code ↦ code
]

-- Fuel for the chain: each exception of the heap adds three candidates and is taken once.
abbrev pub chain_fuel : Heap → ℕ
chain_fuel heap = suc (suc (3 * length heap))

unfoldable pub exception_chain : Heap → ℕ → Option (List ℕ)
unfolding walk
exception_chain heap id = walk (chain_fuel heap) heap (id ∷ []) []

-- The error for a chain, in which the message of an exception has no part.
unfoldable pub chained_error {ℓ} :
    {V : Type ℓ} → (String → String) → Heap → ℕ → Option (List ℕ) → Option (TaskqError V)
unfolding first_state code_of_state new_error error_type
chained_error lower heap id none = none
chained_error lower heap id (some chain) =
    some (new_error lower (error_type (code_of_state (first_state heap chain))) [] (some id) none)

unfoldable pub taskq_error_from_exception {ℓ} :
    {V : Type ℓ} → (String → String) → Heap → ℕ → Option (TaskqError V)
unfolding exception_chain chained_error
taskq_error_from_exception lower heap id = chained_error lower heap id (exception_chain heap id)
