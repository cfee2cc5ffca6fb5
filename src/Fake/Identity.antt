-- ===== src/Fake/Identity.antt =====
-- The comparisons of commands in testing.py: `child.command != command`, and
-- `_workflow_command_identity`, which forgets the order of `depends_on`.
use outlabs_taskq.Prelude.{
  ℕ, Bool, true, false, ◌&&◌, Option, none, some, List, [], ◌∷◌, ◌≡◌, ◌==◌, leb, if◌then◌else◌,
  list_beq, refl, list_beq_refl, option_beq_refl, nat_eq, string_eq, option_eq, eq_refl,
}
use outlabs_taskq.Protocol.{BackoffMode, fixed, exponential, EnqueueCommand}

abbrev mode_beq : BackoffMode → BackoffMode → Bool
mode_beq fixed fixed = true
mode_beq exponential exponential = true
mode_beq _ _ = false

mode_option_beq : Option BackoffMode → Option BackoffMode → Bool
mode_option_beq none none = true
mode_option_beq (some a) (some b) = mode_beq a b
mode_option_beq _ _ = false

mode_option_beq_refl : (o : Option BackoffMode) → mode_option_beq o o ≡ true
unfolding mode_option_beq
mode_option_beq_refl none = refl
mode_option_beq_refl (some fixed) = refl
mode_option_beq_refl (some exponential) = refl

-- Every field but `depends_on`.
same_body : EnqueueCommand → EnqueueCommand → Bool
same_body a b =
    a.queue == b.queue
    && a.job_type == b.job_type
    && a.payload == b.payload
    && a.priority == b.priority
    && a.scheduled_at == b.scheduled_at
    && a.idempotency_key == b.idempotency_key
    && a.concurrency_key == b.concurrency_key
    && a.affinity_key == b.affinity_key
    && a.max_attempts == b.max_attempts
    && a.lease_seconds == b.lease_seconds
    && mode_option_beq a.backoff_mode b.backoff_mode
    && a.backoff_base == b.backoff_base
    && a.backoff_cap == b.backoff_cap
    && a.workflow_id == b.workflow_id
    && a.step_key == b.step_key
    && a.headers == b.headers
    && a.ttl_seconds == b.ttl_seconds
    && a.flow_key == b.flow_key

insert_sorted : ℕ → List ℕ → List ℕ
insert_sorted n [] = n ∷ []
insert_sorted n (m ∷ ms) = let rest = insert_sorted n ms in if leb n m then n ∷ m ∷ ms else m ∷ rest

sort : List ℕ → List ℕ
unfolding insert_sorted
sort [] = []
sort (n ∷ ns) = insert_sorted n (sort ns)

same_list : Option (List ℕ) → Option (List ℕ) → Bool
unfolding list_beq
same_list none none = true
same_list (some a) (some b) = list_beq a b
same_list _ _ = false

sort_option : Option (List ℕ) → Option (List ℕ)
unfolding sort
sort_option none = none
sort_option (some a) = some (sort a)

-- _workflow_command_identity(a) == _workflow_command_identity(b)
unfoldable pub same_identity : EnqueueCommand → EnqueueCommand → Bool
unfolding same_body same_list sort_option mode_option_beq
same_identity a b = same_body a b && same_list (sort_option a.depends_on) (sort_option b.depends_on)

-- a == b
unfoldable pub same_command : EnqueueCommand → EnqueueCommand → Bool
unfolding same_body same_list mode_option_beq
same_command a b = same_body a b && same_list a.depends_on b.depends_on

same_list_refl : (o : Option (List ℕ)) → same_list o o ≡ true
unfolding same_list
same_list_refl none = refl
same_list_refl (some a) = list_beq_refl a

same_body_refl : (a : EnqueueCommand) → same_body a a ≡ true
unfolding same_body
same_body_refl a = simp (option_beq_refl, eq_refl, mode_option_beq_refl)

pub same_identity_refl : (a : EnqueueCommand) → same_identity a a ≡ true
unfolding same_identity
same_identity_refl a = simp (same_body_refl, same_list_refl)

pub same_command_refl : (a : EnqueueCommand) → same_command a a ≡ true
unfolding same_command
same_command_refl a = simp (same_body_refl, same_list_refl)
