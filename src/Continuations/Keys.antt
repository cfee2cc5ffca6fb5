-- ===== src/Continuations/Keys.antt =====
-- The keys of continuations.py: those of followups and those of producers stay apart.
use outlabs_taskq.Prelude.{
  ℕ, ◌≡◌, ◌≢◌, ◌∙◌, ◌↔◌, ap, sym, subst, true, false, String, Option, some, arith, string_eq,
  nat_eq,
}
use outlabs_taskq.Registry.{accepted}
use outlabs_taskq.Continuations.{
  KeyTexts, joined, derive_key, derive_continuation_idempotency_key,
  validate_producer_idempotency_key,
}
use Prim.Native.String.{◌++◌ as join, count}
use text.Mathlib.TextBridge.{IsPrefix}
use text.Mathlib.Text.{starts_with}
use text.Mathlib.TextEquality.{starts_with_iff}
use text.Mathlib.TextLemmas.{prefix-append, append_inj, append_cancel_left}

derive_key-joined :
    (texts : KeyTexts) (prefix : String) (limit parent : ℕ) (step key : String)
    → derive_key texts prefix limit parent step ≡ accepted key
    → key ≡ joined texts prefix parent step
unfolding derive_key
derive_key-joined texts prefix limit parent step key e = ground (arith, e)

producer-prefix :
    (texts : KeyTexts) (value : String) (out : Option String)
    → validate_producer_idempotency_key texts (some value) ≡ accepted out
    → (out ≡ some value) × (starts_with value "chain:" ≡ false)
unfolding validate_producer_idempotency_key
producer-prefix texts value out e = ground (arith, e)

-- A key that the validation of producers accepts comes back as it is, and no followup derives it.
pub producer-derived :
    (texts : KeyTexts) (value key step : String) (parent : ℕ) (out : Option String)
    → validate_producer_idempotency_key texts (some value) ≡ accepted out
    → derive_continuation_idempotency_key texts parent step ≡ accepted key
    → (out ≡ some value) × (value ≢ key)
unfolding derive_continuation_idempotency_key
producer-derived texts value key step parent out free derived =
    let (same, apart) = producer-prefix texts value out free in
    (
      same,
      λ equal.
          let rest : String = join (texts.uuid_text parent) (join ":" step) in
          let whole : value ≡ join "chain:" rest =
            equal ∙ derive_key-joined texts "chain:" 107 parent step key derived in
          let begins : starts_with value "chain:" ≡ true =
            (starts_with_iff value "chain:").1
              (subst (IsPrefix "chain:") (sym whole) (prefix-append "chain:" rest)) in
          absurd cc,
    )

joined_inj :
    (texts : KeyTexts) (prefix : String) (m n : ℕ) (s t : String)
    → count (texts.uuid_text m) ≡ count (texts.uuid_text n)
    → joined texts prefix m s ≡ joined texts prefix n t
    → (texts.uuid_text m ≡ texts.uuid_text n) × (s ≡ t)
joined_inj texts prefix m n s t u e =
    let tails =
      append_cancel_left prefix (join (texts.uuid_text m) (join ":" s))
        (join (texts.uuid_text n) (join ":" t)) e in
    let (uuids, steps) = append_inj tails u in (uuids, append_cancel_left ":" s t steps)

derive_key-joined_iff :
    (texts : KeyTexts) (m n : ℕ) (s t key other : String)
    → derive_continuation_idempotency_key texts m s ≡ accepted key
    → derive_continuation_idempotency_key texts n t ≡ accepted other
    → (key ≡ joined texts "chain:" m s) × (other ≡ joined texts "chain:" n t)
unfolding derive_continuation_idempotency_key
derive_key-joined_iff texts m n s t key other first second = (
  derive_key-joined texts "chain:" 107 m s key first,
  derive_key-joined texts "chain:" 107 n t other second,
)

-- Where the texts of the two parents have one length, and are equal for equal parents only, the keys
-- of two followups agree just if both their parents and their steps do.
pub derive_continuation_idempotency_key_iff :
    (texts : KeyTexts) (m n : ℕ) (s t key other : String)
    → count (texts.uuid_text m) ≡ count (texts.uuid_text n)
    → (texts.uuid_text m ≡ texts.uuid_text n → m ≡ n)
    → derive_continuation_idempotency_key texts m s ≡ accepted key
    → derive_continuation_idempotency_key texts n t ≡ accepted other
    → (key ≡ other) ↔ ((m ≡ n) × (s ≡ t))
derive_continuation_idempotency_key_iff texts m n s t key other u told first second =
    let (is, is') = derive_key-joined_iff texts m n s t key other first second in
    (
      λ same.
          let (uuids, steps) = joined_inj texts "chain:" m n s t u (sym is ∙ same ∙ is') in
          (told uuids, steps),
      λ both.
          is
          ∙ ap (λ p. joined texts "chain:" p s) both.0
          ∙ ap (λ q. joined texts "chain:" n q) both.1
          ∙ sym is',
    )
