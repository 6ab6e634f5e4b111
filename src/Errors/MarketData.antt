-- ===== src/Errors/MarketData.antt =====
-- src/broker/market_data.rs: failures of a market data lookup.
use st0x_alpaca.Prelude.{ℕ, Option, none, some, ◌==◌, if◌then◌else◌}
use st0x_alpaca.Errors.Http.{Http}
use st0x_alpaca.Errors.Classes.{
  Permanence, permanent, transient, Backpressure, response_status_permanence,
}
use st0x_alpaca.Errors.Jwt.{KmsJwtError, is_deterministic, is_rate_limited}
use st0x_alpaca.Errors.Jwt

pub data AlpacaMarketDataError (H : Http) : Type 0 where
  http : H.Error → AlpacaMarketDataError H
  auth : KmsJwtError H → AlpacaMarketDataError H
  api_error : ℕ → Option ℕ → AlpacaMarketDataError H
  entitlement : ℕ → AlpacaMarketDataError H
  missing_quote_timestamp json_parse latest_quote_json_parse : AlpacaMarketDataError H
  latest_quote_symbol_mismatch missing_price non_positive_price : AlpacaMarketDataError H
  missing_quote missing_bid missing_ask non_positive_bid : AlpacaMarketDataError H
  non_positive_ask invalid_quote float not_sent : AlpacaMarketDataError H

module _ {H : Http} where
  unfoldable pub backpressure : AlpacaMarketDataError H → Option Backpressure
  unfolding is_rate_limited Jwt.retry_after
  backpressure (api_error status hint) =
      if status == 429 then some (record { retry_after = hint }) else none
  backpressure (auth error) =
      if is_rate_limited error then some (record { retry_after = Jwt.retry_after error }) else none
  backpressure _ = none

  unfoldable pub permanence : AlpacaMarketDataError H → Permanence
  unfolding is_deterministic response_status_permanence
  permanence (api_error status _) = response_status_permanence H status
  permanence (http source) = if H.is_builder source then permanent else transient
  permanence (auth error) = if is_deterministic error then permanent else transient
  permanence json_parse = permanent
  permanence latest_quote_json_parse = permanent
  permanence (entitlement _) = permanent
  permanence missing_price = permanent
  permanence non_positive_price = permanent
  permanence float = permanent
  permanence not_sent = permanent
  permanence _ = transient
