-- ===== src/Http/Client/Send/Success.antt =====
-- What a call of http/client.py that comes back has received.
use outlabs_taskq.Prelude.{
  ℕ, suc, zero, ◌+◌, ◌≤◌, ◌≡◌, sym, ◌∙◌, ap, subst, Bool, String, some, arith, nat_eq,
}
use outlabs_taskq.Http.Json.{Fields}
use outlabs_taskq.Http.Client.{
  HttpCommandSpec, Response, Library, Failure, success, failed, can_retry,
}
use outlabs_taskq.Http.Client.Decode.{decode_envelope}
use outlabs_taskq.Http.Client.Decode.Answers.{IsAnswer, decode_envelope-IsAnswer}
use outlabs_taskq.Http.Client.Send.{answered, Attempts, send_loop, request}
use outlabs_taskq.Http.Client.Send.Sends.{refused, lost, decoded, goes_on, send_loop-Round}

-- Among the attempts before `last`, the one whose answer is the value of the call.
pub record IsServed (spec : HttpCommandSpec) (world : Attempts) (last : ℕ) (outcome : String)
    (fields : Fields) (id : String) : Type 0 where
  pub attempt : ℕ
  pub response : Response
  pub in_range : attempt + 1 ≤ last
  pub is_named : world.request_id attempt ≡ some id
  pub is_exchanged : world.exchange attempt id ≡ answered response
  pub has_answer : IsAnswer spec id outcome fields response

later_last : (attempt left : ℕ) → attempt + 1 + left ≡ attempt + suc left
later_last attempt left = omega arith

module _ (lib : Library) (retry : Bool) (spec : HttpCommandSpec) (world : Attempts)
    (outcome : String) (fields : Fields) (id : String) where
  failed-success : {f : Failure} → failed f ≡ success outcome fields id → ⊥
  failed-success e = absurd cc

  served :
      (attempt last : ℕ) (sent : String) (r : Response)
      → attempt + 1 ≤ last
      → world.request_id attempt ≡ some sent
      → world.exchange attempt sent ≡ answered r
      → decode_envelope lib spec sent r ≡ success outcome fields id
      → IsServed spec world last outcome fields id
  served attempt last sent r range named exchanged e =
      let (same, answer) = decode_envelope-IsAnswer lib spec sent outcome fields id r e in
      record {
        attempt = attempt;
        response = r;
        in_range = range;
        is_named = named ∙ ap some (sym same);
        is_exchanged = subst (λ i. world.exchange attempt i ≡ answered r) (sym same) exchanged;
        has_answer = subst (λ i. IsAnswer spec i outcome fields r) (sym same) answer;
      }

  send_loop-IsServed :
      (left attempt : ℕ)
      → (send_loop lib left attempt retry spec world).result ≡ success outcome fields id
      → IsServed spec world (attempt + left) outcome fields id
  unfolding send_loop
  send_loop-IsServed zero attempt e = absurd cc
  send_loop-IsServed (suc left) attempt e =
      elim (send_loop-Round lib retry spec world left attempt) [
        | refused is ↦ absurd (failed-success (sym (ap (λ s. s.result) is) ∙ e))
        | lost off is ↦ absurd (failed-success (sym (ap (λ s. s.result) is) ∙ e))
        | decoded sent r named exchanged off is ↦
            served attempt (attempt + suc left) sent r (omega arith) named exchanged
              (sym (ap (λ s. s.result) is) ∙ e)
        | goes_on delay on is ↦
            subst (λ last. IsServed spec world last outcome fields id) (later_last attempt left)
              (send_loop-IsServed left (attempt + 1) (sym (ap (λ s. s.result) is) ∙ e))
      ]

all_attempts : (max_retries : ℕ) → 0 + suc max_retries ≡ max_retries + 1
all_attempts max_retries = omega arith

-- A call that ends with a value got it as the answer to one of its own attempts.
pub request-IsServed :
    (lib : Library) (max_retries : ℕ) (spec : HttpCommandSpec) (body : Fields) (world : Attempts)
    (outcome : String) (fields : Fields) (id : String)
    → (request lib max_retries spec body world).result ≡ success outcome fields id
    → IsServed spec world (max_retries + 1) outcome fields id
unfolding request
request-IsServed lib max_retries spec body world outcome fields id e =
    subst (λ last. IsServed spec world last outcome fields id) (all_attempts max_retries)
      (send_loop-IsServed lib (can_retry spec body) spec world outcome fields id (suc max_retries) 0
        e)
