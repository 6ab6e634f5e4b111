-- ===== src/Gateway/Answer/Broker.antt =====
-- crates/gateway/src/answer.rs: `broker`, `market_data` and `placement`.
use st0x_alpaca.Prelude.{ℕ, Bool, true, false, ◌&&◌, Option, none, some, if◌then◌else◌}
use st0x_alpaca.Errors.Http.{Http}
use st0x_alpaca.Errors.Classes.{Permanence, Backpressure}
use st0x_alpaca.Errors.Jwt.{KmsJwtError}
use st0x_alpaca.Errors.Jwt
use st0x_alpaca.Errors.MarketData.{AlpacaMarketDataError}
use st0x_alpaca.Errors.MarketData
use st0x_alpaca.Errors.Broker.{AlpacaBrokerApiError, PlacementError, is_duplicate_client_order_id}
use st0x_alpaca.Errors.Broker
use st0x_alpaca.Gateway.Failure.{
  Failure, new, invalid, rejection, upstream_transient, outcome_unknown, insufficient_balance,
  account_not_active, asset_not_active, asset_not_tradable,
}
use st0x_alpaca.Gateway.Answer.{
  Sent, read, mutation, untyped, unsent, unsendable, never_left, api_failure, throttled,
}

abbrev pub is_mutation : Sent → Bool
is_mutation read = false
is_mutation mutation = true

-- `pressure.retry_after` of a `backpressure()` that is `Some`, else none.
abbrev pub hint_of : Option Backpressure → Option ℕ
hint_of none = none
hint_of (some pressure) = pressure.retry_after

module _ (H : Http) where
  -- The status that `ApiError` and `Entitlement` carry.
  market_data_status : AlpacaMarketDataError H → Option ℕ
  market_data_status (MarketData.api_error status _) = some status
  market_data_status (MarketData.entitlement status) = some status
  market_data_status _ = none

  market_data_by_status : Option ℕ → Sent → Permanence → Failure
  unfolding api_failure untyped
  market_data_by_status (some status) sent perm = api_failure H status sent perm
  market_data_by_status none sent perm = untyped sent perm

  -- The `match` below the throttling check.
  market_data_unthrottled : AlpacaMarketDataError H → Sent → Permanence → Failure
  unfolding market_data_by_status market_data_status new unsent unsendable never_left untyped
  market_data_unthrottled MarketData.not_sent sent perm = new upstream_transient
  market_data_unthrottled (MarketData.auth Jwt.not_sent) sent perm = new upstream_transient
  market_data_unthrottled (MarketData.auth _) sent perm = unsendable perm
  market_data_unthrottled (MarketData.http source) sent perm =
      if never_left H source then unsent H source else untyped sent perm
  market_data_unthrottled error sent perm =
      market_data_by_status (market_data_status error) sent perm

  unfoldable pub market_data : AlpacaMarketDataError H → Sent → Permanence → Failure
  unfolding market_data_unthrottled throttled MarketData.backpressure
  market_data error sent perm = elim (MarketData.backpressure error) [
    | some pressure ↦ throttled pressure.retry_after (market_data_status error)
    | none ↦ market_data_unthrottled error sent perm
  ]

  -- The status that a broker `ApiError` carries.
  api_status : AlpacaBrokerApiError H → Option ℕ
  api_status (Broker.api_error status _ _) = some status
  api_status _ = none

  -- The `match` below the throttling check.
  broker_unthrottled : AlpacaBrokerApiError H → Sent → Failure
  unfolding new rejection invalid unsent unsendable never_left untyped api_failure
      is_duplicate_client_order_id Broker.permanence
  broker_unthrottled Broker.usd_conversion_insufficient_balance sent =
      record (rejection insufficient_balance) { alpaca_status = some 403 }
  broker_unthrottled Broker.account_not_active sent = rejection account_not_active
  broker_unthrottled Broker.asset_not_active sent = rejection asset_not_active
  broker_unthrottled Broker.asset_not_tradable sent = rejection asset_not_tradable
  broker_unthrottled Broker.invalid_limit_price_precision sent = invalid
  broker_unthrottled Broker.below_precision sent = invalid
  broker_unthrottled Broker.usdc_below_precision sent = invalid
  broker_unthrottled Broker.usdc_precision_exceeded sent = invalid
  broker_unthrottled Broker.not_positive sent = invalid
  broker_unthrottled Broker.not_positive_limit_price sent = invalid
  broker_unthrottled Broker.invalid_order_id sent = invalid
  broker_unthrottled Broker.account_activities_page_limit_exceeded sent = invalid
  broker_unthrottled Broker.not_sent sent = new upstream_transient
  broker_unthrottled (Broker.kms_jwt Jwt.not_sent) sent = new upstream_transient
  broker_unthrottled (Broker.kms_jwt e) sent =
      unsendable (Broker.permanence {H = H} (Broker.kms_jwt e))
  broker_unthrottled Broker.invalid_endpoint sent =
      unsendable (Broker.permanence {H = H} Broker.invalid_endpoint)
  broker_unthrottled Broker.invalid_header sent =
      unsendable (Broker.permanence {H = H} Broker.invalid_header)
  broker_unthrottled (Broker.http_client source) sent =
      if never_left H source
      then unsent H source
      else untyped sent (Broker.permanence {H = H} (Broker.http_client source))
  broker_unthrottled (Broker.api_error status message hint) sent =
      let error : AlpacaBrokerApiError H = Broker.api_error status message hint in
      if is_mutation sent && is_duplicate_client_order_id error
      then record (untyped sent (Broker.permanence {H = H} error)) { alpaca_status = some status }
      else api_failure H status sent (Broker.permanence {H = H} error)
  broker_unthrottled error sent = untyped sent (Broker.permanence {H = H} error)

  -- A broker error that is no market data error.
  broker_throttled : AlpacaBrokerApiError H → Sent → Failure
  unfolding broker_unthrottled throttled api_status Broker.backpressure
  broker_throttled error sent = elim (Broker.backpressure error) [
    | some pressure ↦ throttled pressure.retry_after (api_status error)
    | none ↦ broker_unthrottled error sent
  ]

  unfoldable pub broker : AlpacaBrokerApiError H → Sent → Failure
  unfolding broker_throttled market_data
  broker (Broker.latest_trade source) sent =
      market_data source sent (Broker.permanence {H = H} (Broker.latest_trade source))
  broker (Broker.latest_quote source) sent =
      market_data source sent (Broker.permanence {H = H} (Broker.latest_quote source))
  broker error sent = broker_throttled error sent

  unfoldable pub placement : PlacementError H → Failure
  unfolding broker new api_status
  placement failure =
      if failure.written
      then record (new outcome_unknown) {
        alpaca_status = api_status failure.error;
        retry_after = hint_of (Broker.backpressure failure.error);
      }
      else broker failure.error read
