-- ===== src/Http/Client/Send/Sends.antt =====
-- How often the request loop in http/client.py sends.
use outlabs_taskq.Prelude.{
  ℕ, suc, zero, ◌+◌, ◌≤◌, ◌≡◌, inl, inr, refl, Bool, true, false, not, ◌&&◌, String, Option, none,
  some, Bool-cases, arith, nat_eq, ◌==◌,
}
use outlabs_taskq.Errors.{
  TqCode, operator_denied, conflict, validation, queue_owner_denied, version, backpressure,
  internal, capability, unavailable, registry,
}
use outlabs_taskq.Http.Json.{Fields}
use outlabs_taskq.Http.Client.{
  HttpCommandSpec, Response, Library, config, failed, can_retry, retry_delay, backoff_delay,
}
use outlabs_taskq.Http.Client.Decode.{decode_envelope}
use outlabs_taskq.Http.Client.Send.{
  Exchange, answered, transport_failed, Attempts, Sent, send_loop, request, is_stuck,
  retryable_code, no_transport, resent, ended, exchange_round, send_round,
}

and-right : (a b : Bool) → (a && b) ≡ true → b ≡ true
and-right a b both = ground (arith, both)

pub retryable_code-registry : (c : TqCode) → retryable_code c ≡ (registry c).retryable
unfolding retryable_code registry
retryable_code-registry TqCode.not_found = refl
retryable_code-registry operator_denied = refl
retryable_code-registry conflict = refl
retryable_code-registry validation = refl
retryable_code-registry queue_owner_denied = refl
retryable_code-registry version = refl
retryable_code-registry backpressure = refl
retryable_code-registry internal = refl
retryable_code-registry capability = refl
retryable_code-registry unavailable = refl

-- What a round does: it ends the call, with a response decoded, none or no send, or it goes on.
pub data Round (lib : Library) (go_on : Bool) (again : Sent) (attempt : ℕ) (spec : HttpCommandSpec)
    (world : Attempts) (s : Sent) : Type 0 where
  refused : s ≡ ended (failed config) 0 → Round lib go_on again attempt spec world s
  lost : go_on ≡ false → s ≡ ended (no_transport lib) 1 → Round lib go_on again attempt spec world s
  decoded :
      (id : String) (r : Response)
      → world.request_id attempt ≡ some id
      → world.exchange attempt id ≡ answered r
      → is_stuck (decode_envelope lib spec id r) && go_on ≡ false
      → s ≡ ended (decode_envelope lib spec id r) 1
      → Round lib go_on again attempt spec world s
  goes_on :
      (delay : ℕ)
      → go_on ≡ true
      → s ≡ resent delay again
      → Round lib go_on again attempt spec world s

module _ (lib : Library) (go_on : Bool) (again : Sent) (attempt : ℕ) (spec : HttpCommandSpec)
    (world : Attempts) where
  exchange_round-Round :
      (id : String) (x : Exchange)
      → world.request_id attempt ≡ some id
      → world.exchange attempt id ≡ x
      → Round lib go_on again attempt spec world (exchange_round lib go_on again attempt spec id x)
  unfolding exchange_round
  exchange_round-Round id transport_failed named sent = elim (Bool-cases go_on) [
    | inl on ↦ goes_on (backoff_delay lib attempt) on (rw on refl)
    | inr off ↦ lost off (rw off refl)
  ]
  exchange_round-Round id (answered r) named sent =
      elim (Bool-cases (is_stuck (decode_envelope lib spec id r) && go_on)) [
        | inl on ↦
            goes_on (retry_delay lib r attempt)
              (and-right (is_stuck (decode_envelope lib spec id r)) go_on on) (rw on refl)
        | inr off ↦ decoded id r named sent off (rw off refl)
      ]

  send_round-Round :
      (o : Option String)
      → world.request_id attempt ≡ o
      → Round lib go_on again attempt spec world (send_round lib go_on again attempt spec world o)
  unfolding send_round
  send_round-Round none named = refused refl
  send_round-Round (some id) named = elim (Bool-cases (world.is_closed attempt)) [
    | inl closed ↦ refused (rw closed refl)
    | inr live ↦ rw live (exchange_round-Round id (world.exchange attempt id) named refl)
  ]

module _ (lib : Library) (retry : Bool) (spec : HttpCommandSpec) (world : Attempts) where
  pub send_loop-Round :
      (left attempt : ℕ)
      → Round lib
          (retry && not (left == 0))
          (send_loop lib left (attempt + 1) retry spec world)
          attempt
          spec
          world
          (send_loop lib (suc left) attempt retry spec world)
  unfolding send_loop
  send_loop-Round left attempt =
      send_round-Round lib (retry && not (left == 0))
        (send_loop lib left (attempt + 1) retry spec world) attempt spec world
        (world.request_id attempt) refl

  send_loop-once :
      (left attempt : ℕ) → retry ≡ false → (send_loop lib left attempt retry spec world).sends ≤ 1
  unfolding send_loop
  send_loop-once zero attempt never = omega arith
  send_loop-once (suc left) attempt never = elim (send_loop-Round left attempt) [
    | refused is ↦ rw is (omega arith)
    | lost off is ↦ rw is (omega arith)
    | decoded id r named sent off is ↦ rw is (omega arith)
    | goes_on delay on is ↦ absurd (ground (arith, never, on))
  ]

-- A command that `can_retry` refuses is sent at most once, whatever the attempts meet.
pub request-once :
    (lib : Library) (max_retries : ℕ) (spec : HttpCommandSpec) (body : Fields) (world : Attempts)
    → can_retry spec body ≡ false
    → (request lib max_retries spec body world).sends ≤ 1
unfolding request
request-once lib max_retries spec body world once =
    send_loop-once lib (can_retry spec body) spec world (suc max_retries) 0 once
