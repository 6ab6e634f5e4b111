-- ===== src/Client.antt =====
-- crates/gateway-api/src/client.rs and client/adapter.rs: a gateway call that failed, and how it reads
-- as a failure of the library. Of an error only what some decision reads is kept, and an answer's
-- message, which goes on as the message of the library's error.
pub mod Adapter
pub mod Family
pub mod Laws
pub mod Reads
pub mod Holds
mod Tests
use st0x_alpaca.Prelude.{
  ℕ, ◌*◌, Bool, true, false, not, ◌&&◌, ◌||◌, List, Option, none, some, ◌==◌, leb, if◌then◌else◌,
}
use st0x_alpaca.Catalog.Operation.{Operation, mutates, resendable_with_same_key}
use st0x_alpaca.Errors.Http.{Http}
use st0x_alpaca.Errors.Classes.{GatewayHopError}
use st0x_alpaca.Gateway.Failure.{
  ErrorBody, ErrorCode, rejected, backpressure, upstream_transient, outcome_unknown, Outcome,
  unknown, RejectionReason,
}

pub data ClientError (H : Http) : Type 0 where
  token origin http_client missing_parameter invalid_parameter timeout : ClientError H
  token_status unexpected : ℕ → ClientError H
  transport : H.Error → ClientError H
  gateway : ErrorBody → ClientError H

-- `Alpaca` carries the status, the message and the hold, in nanoseconds.
pub data Answer (E : Type 0) : Type 0 where
  typed : E → Answer E
  alpaca : ℕ → List ℕ → Option ℕ → Answer E
  hop : GatewayHopError → Answer E

abbrev pub nanos_per_sec : ℕ
nanos_per_sec = 1_000_000_000

-- `retry_after_secs.map(Duration::from_secs)`.
unfoldable pub from_secs : Option ℕ → Option ℕ
from_secs none = none
from_secs (some secs) = some (secs * nanos_per_sec)

unfoldable pub clears_on_its_own : ℕ → Bool
clears_on_its_own status = status == 408 || status == 429 || leb 500 status

is_rejected : ErrorCode → Bool
is_rejected rejected = true
is_rejected _ = false

is_unknown : Option Outcome → Bool
is_unknown (some unknown) = true
is_unknown _ = false

is_outcome_unknown : ErrorCode → Bool
is_outcome_unknown outcome_unknown = true
is_outcome_unknown _ = false

-- `GatewayHopError::transport`.
unfoldable pub transport_hop : GatewayHopError
transport_hop = record {
  retryable = true;
  outcome_unknown = false;
  retryable_with_same_key = false;
  retry_after = none;
}

module _ (H : Http) where
  -- Whether the call may have left, and whether a later one can succeed.
  unfoldable pub reach_and_retry : ClientError H → Bool × Bool
  unfolding clears_on_its_own
  reach_and_retry (gateway body) = (true, body.retryable)
  reach_and_retry (transport source) =
      if H.is_builder source
      then (false, false)
      else if H.is_connect source
      then (false, true)
      else (true, true)
  reach_and_retry timeout = (true, true)
  reach_and_retry (unexpected status) = (true, clears_on_its_own status)
  reach_and_retry token = (false, true)
  reach_and_retry (token_status status) = (false, clears_on_its_own status)
  reach_and_retry _ = (false, false)

  -- `body.alpaca_status.and_then(|alpaca| StatusCode::from_u16(alpaca).ok())`.
  unfoldable pub alpaca_status : Option ℕ → Option ℕ
  alpaca_status none = none
  alpaca_status (some status) = H.from_u16 status

  -- The status that the answer is relayed with.
  relayed : ErrorCode → Option ℕ → Option ℕ
  relayed backpressure none = some 429
  relayed backpressure (some status) = some status
  relayed upstream_transient status = status
  relayed rejected status = status
  relayed _ status = none

  module _ (E : Type 0) where
    -- The typed rejection, where the answer is one and the call can rebuild it.
    rebuilt :
        ErrorBody → (RejectionReason → ErrorBody → Option E) → Option RejectionReason → Option E
    unfolding is_rejected
    rebuilt body rebuild none = none
    rebuilt body rebuild (some reason) = if is_rejected body.code then rebuild reason body else none

    -- An answer that is no typed rejection.
    untyped_answer : ErrorBody → Option ℕ → Answer E
    unfolding is_rejected is_unknown is_outcome_unknown from_secs
    untyped_answer body (some status) = alpaca status body.message (from_secs body.retry_after_secs)
    untyped_answer body none = hop (record {
      retryable = body.retryable && not (is_rejected body.code);
      outcome_unknown = is_outcome_unknown body.code || is_unknown body.outcome;
      retryable_with_same_key = body.retryable_with_same_key;
      retry_after = from_secs body.retry_after_secs;
    })

    unfoldable pub answered : ErrorBody → (RejectionReason → ErrorBody → Option E) → Answer E
    unfolding rebuilt untyped_answer relayed alpaca_status
    answered body rebuild = elim (rebuilt body rebuild body.reason) [
      | some error ↦ typed error
      | none ↦ untyped_answer body (relayed body.code (alpaca_status body.alpaca_status))
    ]

    -- A call that got no answer of the gateway.
    unanswered : Operation → Bool × Bool → Answer E
    unfolding transport_hop
    unanswered operation (may_have_left, retryable) =
        if may_have_left && mutates operation
        then hop (record transport_hop {
          retryable = false;
          outcome_unknown = true;
          retryable_with_same_key = resendable_with_same_key operation;
        })
        else hop (record transport_hop { retryable = retryable })

    unfoldable pub answer :
        Operation → ClientError H → (RejectionReason → ErrorBody → Option E) → Answer E
    unfolding answered unanswered reach_and_retry
    answer operation (gateway body) rebuild = answered body rebuild
    answer operation error rebuild = unanswered operation (reach_and_retry error)
