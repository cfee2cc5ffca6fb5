-- ===== src/Examples/Continuations.antt =====
-- Concrete inputs for the theorems on continuation policies and their keys.
use outlabs_taskq.Prelude.{
  ℕ, Bool, ◌==◌, ◌↔◌, nat_eq, if◌then◌else◌, ◌≡◌, false, ◌≢◌, refl, true, String, none, some, [],
  ◌∷◌, All, contains, distinct, list_beq, string_eq, pair_eq,
}
use outlabs_taskq.Dict.{get, put}
use outlabs_taskq.Protocol.{Followup, HandlerResult, complete}
use outlabs_taskq.Registry.{
  refused, invalid_followup, normalize_followups, declared_targets, normalize_all, normalize,
}
use outlabs_taskq.Registry.Registered.{IsRegistered}
use outlabs_taskq.Registry.Graph.{
  validate_followup_graph, check_tasks, check_declared, normalize_followups-refused,
}
use outlabs_taskq.Worker.Results.{
  HandlerValue, normalized, normalize_handler_result, of_value, with_output, with_followups,
}
use outlabs_taskq.Worker.Results.Followups.{normalize_handler_result-IsRunnable}
use outlabs_taskq.Registry.{Task, Target, TaskRegistry, accepted, resolve, require_name}
use outlabs_taskq.Continuations.{
  CompiledPolicy, Codec, KeyTexts, followup_identity, validate_compiled, enforce, members,
  is_canonical, sorted, insert, require_nodes, require_policy_node, is_node, check_parents,
  check_parent, check_targets, live_edges, reached, add_parents, add_queues, all_allowed,
  allowed_edges, find_parent, derive_key, derive_continuation_idempotency_key,
  validate_producer_idempotency_key,
}
use outlabs_taskq.Prelude.{arith, subst, inl, inr, Bool-cases}
use outlabs_taskq.Registry.{Checked}
use outlabs_taskq.Continuations.Compile.{by_name, by_task, compile_continuation_policy}
use outlabs_taskq.Continuations.Compile.Ends.{IsConsistent, compile_continuation_policy-ends}
use outlabs_taskq.Continuations.Runnable.{IsRunnable}
use outlabs_taskq.Continuations.Enforced.{enforce-IsRunnable}
use outlabs_taskq.Continuations.Keys.{producer-derived, derive_continuation_idempotency_key_iff}

abbrev to_send : Target
to_send = record {
  queue = "mail";
  job_type = "send";
  workflow_member = true;
  continuation_revision = some "1";
}

abbrev send_task : Task
send_task = record {
  identity = 1;
  name = "send";
  aliases = [];
  queue = "mail";
  targets = [];
  validate = λ j. some j;
}

abbrev report_task : Task
report_task = record send_task {
  identity = 2;
  name = "report";
  queue = "reports";
  targets = to_send ∷ [];
}

abbrev registry : TaskRegistry
registry = record {
  canonical = ("send", send_task) ∷ ("report", report_task) ∷ [];
  lookup = ("send", send_task) ∷ ("report", report_task) ∷ [];
}

abbrev policy : CompiledPolicy
policy = record {
  manifest = record {
    roots = record { job_type = "report"; queue = "reports" } ∷ [];
    parents =
        record {
          job_type = "report";
          queue = "reports";
          revision = "1";
          targets = record { job_type = "send"; queue = "mail" } ∷ [];
        }
        ∷ [];
  };
  canonical_bytes = "{}";
  continuation_policy_hash = "00";
  reachable_queues = "mail" ∷ "reports" ∷ [];
}

abbrev codec : Codec
codec = record { canonical_json = λ m. "{}"; sha256 = λ s. "00"; is_hash = λ s. true }

policy_is_valid : validate_compiled codec registry policy ≡ accepted tt
unfolding validate_compiled is_canonical sorted insert list_beq distinct contains require_nodes
    require_policy_node resolve get is_node check_parents check_parent live_edges require_name
    check_targets reached add_parents add_queues
policy_is_valid = refl

abbrev mail_followup : Followup
mail_followup = record {
  step = "1";
  job_type = "send";
  queue = some "mail";
  payload = "{}";
  headers = "{}";
  priority = none;
  max_attempts = none;
  lease_seconds = none;
  scheduled_at = none;
  workflow_member = true;
}

abbrev texts : KeyTexts
texts = record { uuid_text = λ n. "id"; byte_length = λ s. 50; is_step = λ s. true }

passes : enforce report_task (mail_followup ∷ []) (some policy) ≡ accepted (mail_followup ∷ [])
unfolding enforce members all_allowed allowed_edges find_parent contains
passes = refl

enforce-IsRunnable_example :
    (mail_followup ∷ [] ≡ mail_followup ∷ [])
    × All
        (λ f. IsRunnable registry (followup_identity report_task f))
        (members (mail_followup ∷ []))
enforce-IsRunnable_example =
    enforce-IsRunnable codec registry report_task policy (mail_followup ∷ []) (mail_followup ∷ [])
      policy_is_valid passes

abbrev daily_key : String
daily_key = "daily"

producer_accepted : validate_producer_idempotency_key texts (some "daily") ≡ accepted (some "daily")
unfolding validate_producer_idempotency_key
producer_accepted = refl

derived : derive_continuation_idempotency_key texts 7 "mail" ≡ accepted "chain:id:mail"
unfolding derive_continuation_idempotency_key derive_key
derived = refl

producer-derived_example : (some daily_key ≡ some daily_key) × (daily_key ≢ "chain:id:mail")
producer-derived_example =
    producer-derived texts "daily" "chain:id:mail" "mail" 7 (some "daily") producer_accepted derived

-- Two UUIDs with texts of one length.
abbrev two_texts : KeyTexts
two_texts = record {
  uuid_text = λ n. if n == 7 then "a7" else "b8";
  byte_length = λ s. 50;
  is_step = λ s. true;
}

derived_seven : derive_continuation_idempotency_key two_texts 7 "mail" ≡ accepted "chain:a7:mail"
unfolding derive_continuation_idempotency_key derive_key
derived_seven = refl

derived_eight : derive_continuation_idempotency_key two_texts 8 "mail" ≡ accepted "chain:b8:mail"
unfolding derive_continuation_idempotency_key derive_key
derived_eight = refl

told_apart : two_texts.uuid_text 7 ≡ two_texts.uuid_text 8 → ◌≡◌ {A = ℕ} 7 8
told_apart same =
    let wrong : ◌≡◌ {A = Bool} false true = (string_eq.is_exact "a7" "b8").1 same in absurd cc

key-iff_example :
    (◌≡◌ {A = String} "chain:a7:mail" "chain:b8:mail")
    ↔ ((◌≡◌ {A = ℕ} 7 8) × (◌≡◌ {A = String} "mail" "mail"))
key-iff_example =
    derive_continuation_idempotency_key_iff two_texts 7 8 "mail" "mail" "chain:a7:mail"
      "chain:b8:mail" refl told_apart derived_seven derived_eight

report_known : get "report" registry.canonical ≡ some report_task
unfolding get
report_known = refl

graph_is_valid : validate_followup_graph registry ≡ accepted tt
unfolding validate_followup_graph check_tasks check_declared resolve get contains
graph_is_valid = refl

abbrev lost_followup : Followup
lost_followup = record mail_followup { job_type = "gone" }

is_refused :
    normalize_followups registry report_task (lost_followup ∷ []) ≡ refused invalid_followup
unfolding normalize_followups declared_targets normalize_all normalize resolve get
is_refused = refl

normalize_followups-refused_example : invalid_followup ≡ invalid_followup
normalize_followups-refused_example =
    normalize_followups-refused registry report_task (lost_followup ∷ []) invalid_followup
      graph_is_valid report_known is_refused

abbrev completed : HandlerResult
completed = complete "{}" (mail_followup ∷ [])

is_normalized :
    normalize_handler_result registry report_task
      (λ j. some j)
      false
      (some policy)
      (HandlerValue.result completed)
      none
    ≡ normalized completed
unfolding normalize_handler_result of_value with_output with_followups normalize_followups
    declared_targets normalize_all normalize resolve get put enforce members all_allowed
    allowed_edges find_parent contains
is_normalized = refl

normalize_handler_result-IsRunnable_example :
    All (IsRegistered registry report_task) (mail_followup ∷ [])
    × All
        (λ f. IsRunnable registry (followup_identity report_task f))
        (members (mail_followup ∷ []))
normalize_handler_result-IsRunnable_example =
    normalize_handler_result-IsRunnable codec registry report_task (λ j. some j) false policy
      policy_is_valid "{}" (mail_followup ∷ []) (HandlerValue.result completed) none is_normalized

get-send :
    (name : String) (t : Task)
    → get name registry.canonical ≡ some t
    → (get t.name registry.canonical ≡ some t) × (t.name ≡ name)
unfolding get
get-send name t e = elim (Bool-cases (string_eq.beq "send" name)) [
  | inl same ↦
      let is : send_task ≡ t = ground (arith, e, same) in
      subst (λ u. (get u.name registry.canonical ≡ some u) × (u.name ≡ name)) is
        (refl, (string_eq.is_exact "send" name).0 same)
  | inr other ↦ elim (Bool-cases (string_eq.beq "report" name)) [
    | inl same ↦
        let is : report_task ≡ t = ground (arith, e, same, other) in
        subst (λ u. (get u.name registry.canonical ≡ some u) × (u.name ≡ name)) is
          (refl, (string_eq.is_exact "report" name).0 same)
    | inr neither ↦ absurd (ground (arith, e, other, neither))
  ]
]

registry-IsConsistent : IsConsistent registry
unfolding resolve
registry-IsConsistent = record {
  is_stored = λ name t e. (get-send name t e).0;
  is_named = λ name t e. (get-send name t e).1;
}

compile_continuation_policy-ends_example :
    (out : Checked CompiledPolicy) × (compile_continuation_policy codec registry
        (by_name "report" ∷ by_task send_task ∷ [])
      ≡ some out)
compile_continuation_policy-ends_example =
    compile_continuation_policy-ends codec registry (by_name "report" ∷ by_task send_task ∷ [])
      registry-IsConsistent
