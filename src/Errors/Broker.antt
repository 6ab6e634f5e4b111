-- ===== src/Errors/Broker.antt =====
-- src/broker/mod.rs: failures of a Broker API call, and of an order placement.
use st0x_alpaca.Prelude.{
  List, codes, contains, true, false, not, ◌||◌, ℕ, Bool, false, ◌&&◌, Option, none, some, ◌==◌,
  if◌then◌else◌,
}
use st0x_alpaca.Errors.Http.{Http}
use st0x_alpaca.Errors.Classes.{
  Permanence, permanent, transient, Backpressure, response_status_permanence, GatewayHopError,
  hop_permanence, hop_backpressure,
}
use st0x_alpaca.Errors.Jwt.{KmsJwtError, is_deterministic, is_rate_limited}
use st0x_alpaca.Errors.Jwt
use st0x_alpaca.Errors.MarketData.{AlpacaMarketDataError}
use st0x_alpaca.Errors.MarketData

-- `ApiError` has its status, the bytes of its message, and the hint.
pub data AlpacaBrokerApiError (H : Http) : Type 0 where
  http_client : H.Error → AlpacaBrokerApiError H
  json_parse alpaca_amount position_symbol_mismatch invalid_header : AlpacaBrokerApiError H
  invalid_endpoint : AlpacaBrokerApiError H
  kms_jwt : KmsJwtError H → AlpacaBrokerApiError H
  api_error : ℕ → List ℕ → Option ℕ → AlpacaBrokerApiError H
  usd_conversion_insufficient_balance invalid_order_id incomplete_order : AlpacaBrokerApiError H
  filled_quantity_mismatch account_not_active crypto_order_failed : AlpacaBrokerApiError H
  conversion_timed_out conversion_cancel_not_settled : AlpacaBrokerApiError H
  conversion_order_not_found duplicate_order_not_found : AlpacaBrokerApiError H
  calendar_iteration_invariant_violation calendar_date_mismatch : AlpacaBrokerApiError H
  calendar_local_time_unresolvable invalid_account_activities_url : AlpacaBrokerApiError H
  account_activities_pagination_invariant_violation : AlpacaBrokerApiError H
  account_activities_page_limit_exceeded asset_not_active : AlpacaBrokerApiError H
  gateway : GatewayHopError → AlpacaBrokerApiError H
  not_sent asset_not_tradable invalid_limit_price_precision : AlpacaBrokerApiError H
  usd_balance_conversion fractional_cents invalid_symbol : AlpacaBrokerApiError H
  missing_position_quantity below_precision usdc_below_precision : AlpacaBrokerApiError H
  usdc_precision_exceeded not_positive not_positive_limit_price : AlpacaBrokerApiError H
  float_conversion : AlpacaBrokerApiError H
  latest_trade latest_quote : AlpacaMarketDataError H → AlpacaBrokerApiError H

module _ {H : Http} where
  unfoldable pub is_duplicate_client_order_id : AlpacaBrokerApiError H → Bool
  is_duplicate_client_order_id (api_error status message _) =
      status == 422 && contains (codes "client_order_id must be unique") message
  is_duplicate_client_order_id _ = false

  unfoldable pub backpressure : AlpacaBrokerApiError H → Option Backpressure
  unfolding is_rate_limited Jwt.retry_after hop_backpressure MarketData.backpressure
  backpressure (api_error status _ hint) =
      if status == 429 then some (record { retry_after = hint }) else none
  backpressure (kms_jwt error) =
      if is_rate_limited error then some (record { retry_after = Jwt.retry_after error }) else none
  backpressure (gateway hop) = hop_backpressure hop
  backpressure (latest_trade source) = MarketData.backpressure source
  backpressure (latest_quote source) = MarketData.backpressure source
  backpressure _ = none

  unfoldable pub permanence : AlpacaBrokerApiError H → Permanence
  unfolding is_deterministic response_status_permanence hop_permanence MarketData.permanence
  permanence (api_error status _ _) = response_status_permanence H status
  permanence (http_client source) = if H.is_builder source then permanent else transient
  permanence (kms_jwt error) = if is_deterministic error then permanent else transient
  permanence (gateway hop) = hop_permanence hop
  permanence position_symbol_mismatch = transient
  permanence (latest_trade source) = MarketData.permanence source
  permanence (latest_quote source) = MarketData.permanence source
  permanence _ = permanent

pub record PlacementError (H : Http) : Type 0 where
  pub written : Bool
  pub error : AlpacaBrokerApiError H

-- src/broker/order.rs: whether a failed order request may have been written.
module _ {H : Http} where
  unfoldable pub may_have_reached_alpaca : AlpacaBrokerApiError H → Bool
  may_have_reached_alpaca (api_error status _ _) =
      not (H.is_client_error status && not (status == 408))
  may_have_reached_alpaca (http_client source) = not (H.is_builder source || H.is_connect source)
  may_have_reached_alpaca (gateway hop) = hop.outcome_unknown
  may_have_reached_alpaca (kms_jwt _) = false
  may_have_reached_alpaca invalid_header = false
  may_have_reached_alpaca invalid_endpoint = false
  may_have_reached_alpaca not_sent = false
  may_have_reached_alpaca _ = true
