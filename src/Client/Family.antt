-- ===== src/Client/Family.antt =====
-- The failed calls of the three families as one type, and what a failure at Alpaca becomes when a
-- gateway answers with it and a client reads the answer, each call by the functions that it goes through.
use st0x_alpaca.Prelude.{ℕ, ◌≡◌, ◌⊎◌, inl, inr, List, Option}
use st0x_alpaca.Catalog.Operation.{Operation}
use st0x_alpaca.Errors.Http.{Http}
use st0x_alpaca.Errors.Classes.{Permanence, Backpressure}
use st0x_alpaca.Errors.Jwt
use st0x_alpaca.Errors.MarketData.{AlpacaMarketDataError}
use st0x_alpaca.Errors.MarketData
use st0x_alpaca.Errors.Broker.{AlpacaBrokerApiError, PlacementError}
use st0x_alpaca.Errors.Broker
use st0x_alpaca.Errors.Wallet.{AlpacaWalletError}
use st0x_alpaca.Errors.Wallet
use st0x_alpaca.Errors.Tokenization.{AlpacaTokenizationError}
use st0x_alpaca.Errors.Tokenization
use st0x_alpaca.Gateway.Failure.{body, for_mutation, ErrorBody, RejectionReason}
use st0x_alpaca.Gateway.Answer.{Sent, read, mutation}
use st0x_alpaca.Gateway.Answer.Broker.{broker, placement}
use st0x_alpaca.Gateway.Answer.Clients.{wallet, tokenization}
use st0x_alpaca.Client.{gateway}
use st0x_alpaca.Client.Adapter.{
  broker_error, market_data_error, wallet_error, tokenization_error, untyped, not_whitelisted,
  not_found, mint_rejection,
}

module _ (H : Http) where
  -- A failure of a client that talks to Alpaca itself, whose request the send gate let through. An
  -- entitlement failure has the status 401 or 403.
  abbrev pub IsDirect : AlpacaBrokerApiError H → Type 0
  IsDirect (Broker.gateway _) = ⊥
  IsDirect Broker.not_sent = ⊥
  IsDirect (Broker.kms_jwt Jwt.not_sent) = ⊥
  IsDirect (Broker.latest_trade MarketData.not_sent) = ⊥
  IsDirect (Broker.latest_quote MarketData.not_sent) = ⊥
  IsDirect (Broker.latest_trade (MarketData.auth Jwt.not_sent)) = ⊥
  IsDirect (Broker.latest_quote (MarketData.auth Jwt.not_sent)) = ⊥
  IsDirect (Broker.latest_trade (MarketData.entitlement status)) = (status ≡ 401) ⊎ (status ≡ 403)
  IsDirect (Broker.latest_quote (MarketData.entitlement status)) = (status ≡ 401) ⊎ (status ≡ 403)
  IsDirect _ = Unit {0}

  abbrev pub IsDirectWallet : AlpacaWalletError H → Type 0
  IsDirectWallet (Wallet.gateway _) = ⊥
  IsDirectWallet Wallet.not_sent = ⊥
  IsDirectWallet (Wallet.auth Jwt.not_sent) = ⊥
  IsDirectWallet _ = Unit {0}

  abbrev pub IsDirectTokenization : AlpacaTokenizationError H → Type 0
  IsDirectTokenization (Tokenization.gateway _) = ⊥
  IsDirectTokenization Tokenization.not_sent = ⊥
  IsDirectTokenization (Tokenization.auth Jwt.not_sent) = ⊥
  IsDirectTokenization _ = Unit {0}

  -- What a client reads when the gateway's call failed with the error: `broker_hop` of the calls that go
  -- through `GatewayBroker::call`, `market_hop` of the market data reads.
  unfoldable pub broker_hop :
      Sent → Operation → List ℕ → AlpacaBrokerApiError H → AlpacaBrokerApiError H
  broker_hop sent o message e =
      broker_error o (gateway (body (for_mutation (broker H e sent) o) message))

  unfoldable pub market_hop :
      (AlpacaMarketDataError H → AlpacaBrokerApiError H)
      → Operation
      → List ℕ
      → AlpacaBrokerApiError H
      → AlpacaBrokerApiError H
  market_hop wrap o message e =
      market_data_error o (gateway (body (for_mutation (broker H e read) o) message)) wrap

  unfoldable pub placement_hop : Operation → List ℕ → PlacementError H → AlpacaBrokerApiError H
  placement_hop o message failure =
      broker_error o (gateway (body (for_mutation (placement H failure) o) message))

  unfoldable pub wallet_hop :
      (RejectionReason → ErrorBody → Option (AlpacaWalletError H))
      → Sent
      → Operation
      → List ℕ
      → AlpacaWalletError H
      → AlpacaWalletError H
  wallet_hop rebuild sent o message e =
      wallet_error o (gateway (body (for_mutation (wallet H e sent) o) message)) rebuild

  unfoldable pub tokenization_hop :
      (RejectionReason → ErrorBody → Option (AlpacaTokenizationError H))
      → Sent
      → Operation
      → List ℕ
      → AlpacaTokenizationError H
      → AlpacaTokenizationError H
  tokenization_hop rebuild sent o message e =
      tokenization_error o (gateway (body (for_mutation (tokenization H e sent) o) message)) rebuild

  -- A failed call, by how the gateway answers it and how the client reads the answer: `trade_read` and
  -- `quote_read` are the market data reads, `withdrawal`, `request_read` and `mint` the calls with typed
  -- rejections, `placement_call` the three placements, and the other three all other calls of a family.
  pub data FailedCall : Type 0 where
    broker_call : Sent → AlpacaBrokerApiError H → FailedCall
    trade_read quote_read : AlpacaBrokerApiError H → FailedCall
    placement_call : PlacementError H → FailedCall
    wallet_call : Sent → AlpacaWalletError H → FailedCall
    withdrawal : AlpacaWalletError H → FailedCall
    tokenization_call : Sent → AlpacaTokenizationError H → FailedCall
    request_read mint : AlpacaTokenizationError H → FailedCall

  -- The library's error: of the broker, of the wallet, or of tokenization.
  abbrev pub AnyError : Type 0
  AnyError = AlpacaBrokerApiError H ⊎ (AlpacaWalletError H ⊎ AlpacaTokenizationError H)

  -- As the client that talks to Alpaca gives it, and as the client of the gateway does.
  abbrev pub direct : FailedCall → AnyError
  direct (broker_call sent e) = inl e
  direct (trade_read e) = inl e
  direct (quote_read e) = inl e
  direct (placement_call failure) = inl failure.error
  direct (wallet_call sent e) = inr (inl e)
  direct (withdrawal e) = inr (inl e)
  direct (tokenization_call sent e) = inr (inr e)
  direct (request_read e) = inr (inr e)
  direct (mint e) = inr (inr e)

  abbrev pub over_hop : Operation → List ℕ → FailedCall → AnyError
  over_hop o message (broker_call sent e) = inl (broker_hop sent o message e)
  over_hop o message (trade_read e) = inl (market_hop Broker.latest_trade o message e)
  over_hop o message (quote_read e) = inl (market_hop Broker.latest_quote o message e)
  over_hop o message (placement_call failure) = inl (placement_hop o message failure)
  over_hop o message (wallet_call sent e) = inr (inl (wallet_hop untyped sent o message e))
  over_hop o message (withdrawal e) = inr (inl (wallet_hop not_whitelisted mutation o message e))
  over_hop o message (tokenization_call sent e) =
      inr (inr (tokenization_hop untyped sent o message e))
  over_hop o message (request_read e) = inr (inr (tokenization_hop not_found read o message e))
  over_hop o message (mint e) = inr (inr (tokenization_hop mint_rejection mutation o message e))

  abbrev pub any_permanence : AnyError → Permanence
  any_permanence (inl e) = Broker.permanence e
  any_permanence (inr (inl e)) = Wallet.permanence e
  any_permanence (inr (inr e)) = Tokenization.permanence e

  abbrev pub any_backpressure : AnyError → Option Backpressure
  any_backpressure (inl e) = Broker.backpressure e
  any_backpressure (inr (inl e)) = Wallet.backpressure e
  any_backpressure (inr (inr e)) = Tokenization.backpressure e

  abbrev IsRead : Sent → Type 0
  IsRead read = Unit
  IsRead mutation = ⊥

  -- A read, whose failure is one of a client that talks to Alpaca itself.
  abbrev pub IsDirectRead : FailedCall → Type 0
  IsDirectRead (broker_call sent e) = IsRead sent × IsDirect e
  IsDirectRead (trade_read e) = IsDirect e
  IsDirectRead (quote_read e) = IsDirect e
  IsDirectRead (wallet_call sent e) = IsRead sent × IsDirectWallet e
  IsDirectRead (tokenization_call sent e) = IsRead sent × IsDirectTokenization e
  IsDirectRead (request_read e) = IsDirectTokenization e
  IsDirectRead _ = ⊥
