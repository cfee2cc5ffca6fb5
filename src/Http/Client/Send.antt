-- ===== src/Http/Client/Send.antt =====
-- http/client.py: the request loop.
pub mod Sends
pub mod Success
use outlabs_taskq.Prelude.{
  ℕ, suc, zero, ◌+◌, Bool, true, false, not, ◌&&◌, ◌==◌, String, Option, none, some, List, [], ◌∷◌,
  if◌then◌else◌, string_eq, nat_eq, option_eq,
}
use outlabs_taskq.Errors.{
  TqCode, new_error, unavailable_error, class_code, backpressure, internal, unavailable,
}
use outlabs_taskq.Http.Json.{Fields}
use outlabs_taskq.Http.Client.{
  HttpCommandSpec, Response, Library, Failure, config, taskq, crash, Decoded, success, failed,
  can_retry, backoff_delay, retry_delay,
}
use outlabs_taskq.Http.Client.Decode.{decode_envelope}

-- What the network does with one request.
pub data Exchange : Type 0 where
  answered : Response → Exchange
  transport_failed : Exchange

-- What the attempts of one call meet, by their number: whether the client is closed, the request
-- id, `none` where its provider or the process id is refused, and what the network does.
pub record Attempts : Type 0 where
  pub is_closed : ℕ → Bool
  pub request_id : ℕ → Option String
  pub exchange : ℕ → String → Exchange

-- code in _RETRYABLE_HTTP_CODES
unfoldable pub retryable_code : TqCode → Bool
retryable_code backpressure = true
retryable_code internal = true
retryable_code unavailable = true
retryable_code _ = false

-- of getattr(exc, "code", None)
unfoldable pub is_retryable : Failure → Bool
unfolding retryable_code class_code
is_retryable (taskq e) = retryable_code (class_code e.error)
is_retryable _ = false

-- The end of a call: its value or exception, and the delays it slept before each resend.
pub record Sent : Type 0 where
  pub result : Decoded
  pub sends : ℕ
  pub delays : List ℕ

abbrev pub ended : Decoded → ℕ → Sent
ended result sends = record { result = result; sends = sends; delays = [] }

abbrev pub resent : ℕ → Sent → Sent
resent delay s = record s { sends = s.sends + 1; delays = delay ∷ s.delays }

abbrev pub is_stuck : Decoded → Bool
is_stuck (failed f) = is_retryable f
is_stuck (success o d i) = false

module _ (lib : Library) where
  abbrev pub no_transport : Decoded
  no_transport = failed (taskq (new_error lib.lower unavailable_error [] none none))

  -- One attempt that got an id; `again` is what the attempts after it do, where `go_on` holds.
  unfoldable pub exchange_round : Bool → Sent → ℕ → HttpCommandSpec → String → Exchange → Sent
  unfolding decode_envelope retry_delay backoff_delay is_retryable new_error
  exchange_round go_on again attempt spec id transport_failed =
      if go_on then resent (backoff_delay lib attempt) again else ended no_transport 1
  exchange_round go_on again attempt spec id (answered r) =
      let d = decode_envelope lib spec id r in
      if is_stuck d && go_on then resent (retry_delay lib r attempt) again else ended d 1

  unfoldable pub send_round : Bool → Sent → ℕ → HttpCommandSpec → Attempts → Option String → Sent
  unfolding exchange_round
  send_round go_on again attempt spec world none = ended (failed config) 0
  send_round go_on again attempt spec world (some id) =
      if world.is_closed attempt
      then ended (failed config) 0
      else exchange_round go_on again attempt spec id (world.exchange attempt id)

  -- `left` rounds of the loop of `_request`, from the attempt `attempt` on.
  unfoldable pub send_loop : ℕ → ℕ → Bool → HttpCommandSpec → Attempts → Sent
  unfolding send_round
  send_loop zero attempt retry spec world = ended (failed (crash "AssertionError")) 0
  send_loop (suc left) attempt retry spec world =
      send_round (retry && not (left == 0)) (send_loop left (attempt + 1) retry spec world) attempt
        spec world (world.request_id attempt)

  -- The attempts of `_request`. What comes before its loop, which is the test for a deferred command,
  -- the path and the model of the request, is left to the caller.
  unfoldable pub request : ℕ → HttpCommandSpec → Fields → Attempts → Sent
  unfolding send_loop can_retry
  request max_retries spec body world =
      send_loop (suc max_retries) 0 (can_retry spec body) spec world
