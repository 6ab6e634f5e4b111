-- ===== src/Gateway/Answer/Laws.antt =====
-- When an answer may say that nothing was applied, and that no mapper loses a wait that Alpaca
-- asked for: crates/gateway/src/answer.rs.
use st0x_alpaca.Prelude.{
  ℕ, ◌≡◌, ◌≢◌, ◌⊎◌, ◌↔◌, true, false, Option, some, arith, if◌then◌else◌, ◌≤◌, ◌<◌, ◌+◌, ◌*◌, ◌^◌,
  ◌-◌,
}
use st0x_alpaca.Catalog.Operation.{Operation, mutates, resendable_with_same_key}
use st0x_alpaca.Errors.Http.{Http}
use st0x_alpaca.Errors.Classes.{Backpressure}
use st0x_alpaca.Errors.Broker.{
  AlpacaBrokerApiError, PlacementError, is_duplicate_client_order_id, may_have_reached_alpaca,
}
use st0x_alpaca.Errors.Broker
use st0x_alpaca.Errors.Wallet.{AlpacaWalletError}
use st0x_alpaca.Errors.Wallet
use st0x_alpaca.Errors.Tokenization.{AlpacaTokenizationError}
use st0x_alpaca.Errors.Tokenization
use st0x_alpaca.Errors.Issuer.{AlpacaError, IssuerCallError}
use st0x_alpaca.Errors.Issuer
use st0x_alpaca.Gateway.Failure.{
  Failure, outcome_unknown, for_mutation, unknown, not_applied, whole_seconds,
}
use st0x_alpaca.Gateway.Answer.{Sent, mutation}
use st0x_alpaca.Gateway.Answer.Broker.{broker, placement}
use st0x_alpaca.Gateway.Answer.Clients.{wallet, tokenization}
use st0x_alpaca.Gateway.Answer.Issuer.{issuer, issuer_call}

-- The errors that one request to Alpaca can end with, apart from a refused duplicate key.
abbrev pub IsRequestError : {H : Http} → AlpacaBrokerApiError H → Type 0
IsRequestError {H} (Broker.api_error status message hint) =
    is_duplicate_client_order_id {H = H} (Broker.api_error status message hint) ≡ false
IsRequestError (Broker.http_client _) = Unit {0}
IsRequestError (Broker.kms_jwt _) = Unit {0}
IsRequestError Broker.invalid_header = Unit {0}
IsRequestError Broker.invalid_endpoint = Unit {0}
IsRequestError Broker.not_sent = Unit {0}
IsRequestError _ = ⊥

module _ (H : Http) where
  -- The answer to a failed order placement, for an operation that changes state, reports the
  -- outcome as unknown if the order request may have been written, and as not applied otherwise.
  pub placement_outcome :
      (failure : PlacementError H) (o : Operation)
      → mutates o ≡ true
      → (for_mutation (placement H failure) o).outcome
        ≡ some (if failure.written then unknown else not_applied)
  unfolding placement for_mutation
  placement_outcome failure o m = ground arith

  -- The answer to a failed issuer call, for an operation that changes state, reports the outcome as
  -- unknown if an attempt may have been written, and as not applied otherwise.
  pub issuer_call_outcome :
      (failure : IssuerCallError H) (o : Operation)
      → mutates o ≡ true
      → (for_mutation (issuer_call H failure) o).outcome
        ≡ some (if failure.written then unknown else not_applied)
  unfolding issuer_call for_mutation
  issuer_call_outcome failure o m = ground arith

  -- For an error of one request that is no refused duplicate key, the broker mapper answers a
  -- mutation as unknown exactly when the order module's rule says that the request may have
  -- reached Alpaca.
  pub broker_agrees :
      (e : AlpacaBrokerApiError H)
      → IsRequestError e
      → ((broker H e mutation).code ≡ outcome_unknown) ↔ (may_have_reached_alpaca e ≡ true)
  unfolding broker may_have_reached_alpaca
  broker_agrees (Broker.api_error status message hint) r =
      (ground (arith, H.client_error_lem status), ground (arith, H.client_error_lem status))
  broker_agrees e r = (ground arith, ground arith)

-- A failure of any of the four clients, what it asks callers to wait, and its answer.
pub data ClientError (H : Http) : Type 0 where
  of_broker : AlpacaBrokerApiError H → ClientError H
  of_wallet : AlpacaWalletError H → ClientError H
  of_tokenization : AlpacaTokenizationError H → ClientError H
  of_issuer : AlpacaError H → ClientError H

module _ (H : Http) where
  unfoldable pub asked : ClientError H → Option Backpressure
  asked (of_broker e) = Broker.backpressure e
  asked (of_wallet e) = Wallet.backpressure e
  asked (of_tokenization e) = Tokenization.backpressure e
  asked (of_issuer e) = Issuer.backpressure e

  pub answered : ClientError H → Sent → Failure
  unfolding broker wallet tokenization issuer
  answered (of_broker e) sent = broker H e sent
  answered (of_wallet e) sent = wallet H e sent
  answered (of_tokenization e) sent = tokenization H e sent
  answered (of_issuer e) sent = issuer H e sent

  -- Whenever a client's error is backpressure, the answer carries the wait that it asks for, to
  -- reads and to mutations, and says that nothing was applied: its code is never the unknown one.
  pub answer_keeps_wait :
      (e : ClientError H) (sent : Sent) (p : Backpressure)
      → asked e ≡ some p
      → ((answered e sent).retry_after ≡ p.retry_after) × ((answered e sent).code ≢ outcome_unknown)
  unfolding answered asked
  answer_keeps_wait (of_broker e) sent p h = (ground arith, ground arith)
  answer_keeps_wait e sent p h = (ground arith, ground arith)

-- Whatever failure a mutation ends with, the answer offers a resend under the same key only with
-- an unknown outcome and for an operation that Alpaca dedupes or that is idempotent; a read's
-- failure is left as it is.
pub for_mutation_resend :
    (f : Failure) (o : Operation)
    → f.retryable_with_same_key ≡ false
    → (for_mutation f o).retryable_with_same_key ≡ true
    → (f.code ≡ outcome_unknown)
      × (resendable_with_same_key o ≡ true)
      × ((for_mutation f o).outcome ≡ some unknown)
      × ((for_mutation f o).retryable ≡ false)
unfolding for_mutation
for_mutation_resend f o h k = ground arith

-- The whole seconds of a hold shorter than 2^64 - 1 seconds are at least one, never end before the
-- hold, and are less than a second longer unless they are one.
pub whole_seconds_bounds :
    (hold : ℕ)
    → hold < (2 ^ 64 - 1) * 1_000_000_000
    → (1 ≤ whole_seconds hold)
      × (hold ≤ whole_seconds hold * 1_000_000_000)
      × ((whole_seconds hold ≡ 1) ⊎ (whole_seconds hold * 1_000_000_000 < hold + 1_000_000_000))
unfolding whole_seconds
whole_seconds_bounds hold h = ground arith
