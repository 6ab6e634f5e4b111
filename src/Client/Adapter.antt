-- ===== src/Client/Adapter.antt =====
-- crates/gateway-api/src/client/adapter.rs: the library error of each family that a failed call reads
-- as.
use st0x_alpaca.Prelude.{Option, none, some}
use st0x_alpaca.Catalog.Operation.{Operation}
use st0x_alpaca.Errors.Http.{Http}
use st0x_alpaca.Errors.MarketData.{AlpacaMarketDataError}
use st0x_alpaca.Errors.MarketData
use st0x_alpaca.Errors.Broker.{AlpacaBrokerApiError}
use st0x_alpaca.Errors.Broker
use st0x_alpaca.Errors.Wallet.{AlpacaWalletError}
use st0x_alpaca.Errors.Wallet
use st0x_alpaca.Errors.Tokenization.{AlpacaTokenizationError}
use st0x_alpaca.Errors.Tokenization
use st0x_alpaca.Gateway.Failure.{
  ErrorBody, RejectionReason, insufficient_balance, insufficient_position, unsupported_account,
  invalid_parameters, address_not_whitelisted, request_not_found,
}
use st0x_alpaca.Client.{ClientError, Answer, typed, alpaca, hop, answer}

-- For the calls without a typed rejection.
abbrev pub untyped : {E : Type 0} → RejectionReason → ErrorBody → Option E
untyped reason body = none

module _ {H : Http} where
  insufficient : RejectionReason → ErrorBody → Option (AlpacaBrokerApiError H)
  insufficient insufficient_balance body = some Broker.usd_conversion_insufficient_balance
  insufficient _ body = none

  broker_answer : Answer (AlpacaBrokerApiError H) → AlpacaBrokerApiError H
  broker_answer (typed error) = error
  broker_answer (alpaca status message retry_after) = Broker.api_error status message retry_after
  broker_answer (hop h) = Broker.gateway h

  unfoldable pub broker_error : Operation → ClientError H → AlpacaBrokerApiError H
  unfolding insufficient broker_answer answer
  broker_error operation error =
      broker_answer (answer H (AlpacaBrokerApiError H) operation error insufficient)

  market_data_answer :
      (AlpacaMarketDataError H → AlpacaBrokerApiError H)
      → Answer (AlpacaBrokerApiError H)
      → AlpacaBrokerApiError H
  market_data_answer wrap (typed error) = error
  market_data_answer wrap (alpaca status message retry_after) =
      wrap (MarketData.api_error status retry_after)
  market_data_answer wrap (hop h) = Broker.gateway h

  unfoldable pub market_data_error :
      Operation
      → ClientError H
      → (AlpacaMarketDataError H → AlpacaBrokerApiError H)
      → AlpacaBrokerApiError H
  unfolding market_data_answer answer
  market_data_error operation error wrap =
      market_data_answer wrap (answer H (AlpacaBrokerApiError H) operation error untyped)

  wallet_answer : Answer (AlpacaWalletError H) → AlpacaWalletError H
  wallet_answer (typed error) = error
  wallet_answer (alpaca status message retry_after) = Wallet.api_error status retry_after
  wallet_answer (hop h) = Wallet.gateway h

  unfoldable pub wallet_error :
      Operation
      → ClientError H
      → (RejectionReason → ErrorBody → Option (AlpacaWalletError H))
      → AlpacaWalletError H
  unfolding wallet_answer answer
  wallet_error operation error rebuild =
      wallet_answer (answer H (AlpacaWalletError H) operation error rebuild)

  -- The typed refusal of a withdrawal.
  unfoldable pub not_whitelisted : RejectionReason → ErrorBody → Option (AlpacaWalletError H)
  not_whitelisted address_not_whitelisted body = some Wallet.address_not_whitelisted
  not_whitelisted _ body = none

  tokenization_answer : Answer (AlpacaTokenizationError H) → AlpacaTokenizationError H
  tokenization_answer (typed error) = error
  tokenization_answer (alpaca status message retry_after) =
      Tokenization.api_error status retry_after
  tokenization_answer (hop h) = Tokenization.gateway h

  unfoldable pub tokenization_error :
      Operation
      → ClientError H
      → (RejectionReason → ErrorBody → Option (AlpacaTokenizationError H))
      → AlpacaTokenizationError H
  unfolding tokenization_answer answer
  tokenization_error operation error rebuild =
      tokenization_answer (answer H (AlpacaTokenizationError H) operation error rebuild)

  unfoldable pub mint_rejection : RejectionReason → ErrorBody → Option (AlpacaTokenizationError H)
  mint_rejection insufficient_position body = some Tokenization.insufficient_position
  mint_rejection unsupported_account body = some Tokenization.unsupported_account
  mint_rejection invalid_parameters body = some Tokenization.invalid_parameters
  mint_rejection _ body = none

  unfoldable pub not_found : RejectionReason → ErrorBody → Option (AlpacaTokenizationError H)
  not_found request_not_found body = some Tokenization.request_not_found
  not_found _ body = none
