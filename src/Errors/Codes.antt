-- ===== src/Errors/Codes.antt =====
-- The codes, their texts and their error classes.
use outlabs_taskq.Prelude.{
  ◌≡◌, ◌≢◌, refl, ap, Option-cases, arith, String, Option, none, some, string_eq, List, [], ◌∷◌,
  inl, inr,
}
use outlabs_taskq.Dict.{Dict}
use outlabs_taskq.Errors.{
  TqCode, operator_denied, conflict, validation, queue_owner_denied, version, backpressure,
  capability, unavailable, text_of, with_text, parse_code, codes, internal, taskq_error_from_code,
  registry, error_type, class_code, new_error, or_internal, Seconds,
}

pub parse_code-text_of : (c : TqCode) → parse_code (text_of c) ≡ some c
unfolding parse_code with_text text_of
parse_code-text_of TqCode.not_found = refl
parse_code-text_of TqCode.operator_denied = refl
parse_code-text_of TqCode.conflict = refl
parse_code-text_of TqCode.validation = refl
parse_code-text_of TqCode.queue_owner_denied = refl
parse_code-text_of TqCode.version = refl
parse_code-text_of TqCode.backpressure = refl
parse_code-text_of TqCode.internal = refl
parse_code-text_of TqCode.capability = refl
parse_code-text_of TqCode.unavailable = refl

with_text-text_of :
    (s : String) (c : TqCode) (cs : List TqCode) → with_text s cs ≡ some c → text_of c ≡ s
unfolding with_text
with_text-text_of s c [] found = absurd cc
with_text-text_of s c (d ∷ cs) found =
    ground (arith, found, string_eq.is_exact (text_of d) s, with_text-text_of s c cs)

class_code-error_type : (c : TqCode) → class_code (error_type c) ≡ c
unfolding class_code error_type
class_code-error_type TqCode.not_found = refl
class_code-error_type operator_denied = refl
class_code-error_type conflict = refl
class_code-error_type validation = refl
class_code-error_type queue_owner_denied = refl
class_code-error_type version = refl
class_code-error_type backpressure = refl
class_code-error_type internal = refl
class_code-error_type capability = refl
class_code-error_type unavailable = refl

pub error_from_code-code {ℓ} :
    {V : Type ℓ} (lower : String → String) (c : TqCode) (details : Dict String V)
    (retry_after : Option Seconds)
    → let e = taskq_error_from_code lower (text_of c) details retry_after in
      (class_code e.error ≡ c) × (e.retryable ≡ (registry c).retryable)
unfolding taskq_error_from_code new_error
error_from_code-code lower c details retry_after =
    rw (parse_code-text_of, class_code-error_type) (refl, refl)

pub error_from_code-unknown {ℓ} :
    {V : Type ℓ} (lower : String → String) (s : String) (details : Dict String V)
    (retry_after : Option Seconds)
    → ((c : TqCode) → text_of c ≢ s)
    → taskq_error_from_code lower s details retry_after
      ≡ taskq_error_from_code lower (text_of internal) details retry_after
unfolding taskq_error_from_code parse_code with_text text_of
error_from_code-unknown lower s details retry_after unknown = elim (Option-cases (parse_code s)) [
  | inl none_found ↦
      ap (λ code. new_error lower (error_type code) details none retry_after)
        (ap or_internal none_found)
  | inr (c, found) ↦ absurd (unknown c (with_text-text_of s c codes found))
]
