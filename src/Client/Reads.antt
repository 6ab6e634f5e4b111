-- ===== src/Client/Reads.antt =====
-- How a failed read is classified over the gateway of crates/gateway/src/answer.rs and its client in
-- crates/gateway-api/src/client/adapter.rs, against how it is classified directly.
use st0x_alpaca.Prelude.{ℕ, ◌≡◌, false, List, arith}
use st0x_alpaca.Catalog.Operation.{Operation, mutates}
use st0x_alpaca.Errors.Http.{Http}
use st0x_alpaca.Errors.MarketData
use st0x_alpaca.Errors.Broker.{AlpacaBrokerApiError, PlacementError}
use st0x_alpaca.Errors.Broker
use st0x_alpaca.Errors.Wallet.{AlpacaWalletError}
use st0x_alpaca.Errors.Wallet
use st0x_alpaca.Errors.Tokenization.{AlpacaTokenizationError}
use st0x_alpaca.Errors.Tokenization
use st0x_alpaca.Gateway.Failure.{body, for_mutation}
use st0x_alpaca.Gateway.Answer.{read, mutation}
use st0x_alpaca.Gateway.Answer.Broker.{broker}
use st0x_alpaca.Gateway.Answer.Clients.{wallet, tokenization}
use st0x_alpaca.Client.Family.{
  broker_hop, market_hop, wallet_hop, tokenization_hop, FailedCall, broker_call, trade_read,
  quote_read, placement_call, wallet_call, withdrawal, tokenization_call, request_read, mint,
  direct, over_hop, any_permanence, IsDirect, IsDirectWallet, IsDirectTokenization, IsDirectRead,
}
use st0x_alpaca.Client.Adapter.{
  broker_error, market_data_error, wallet_error, tokenization_error, untyped, not_found,
}

module _ (H : Http) where
  permanence-broker_hop :
      (e : AlpacaBrokerApiError H) (o : Operation) (message : List ℕ)
      → mutates o ≡ false
      → IsDirect H e
      → Broker.permanence (broker_hop H read o message e) ≡ Broker.permanence e
  unfolding broker_hop broker for_mutation body broker_error Broker.permanence
  permanence-broker_hop (Broker.api_error status text hint) o message m g = ground (
    arith,
    H.from_u16_lem status,
    H.client_error_lem status,
    H.redirection_lem status,
    H.from_u16_lem 429,
  )
  permanence-broker_hop (Broker.latest_trade (MarketData.api_error status hint)) o message m g =
      ground (
        arith,
        H.from_u16_lem status,
        H.client_error_lem status,
        H.redirection_lem status,
        H.from_u16_lem 429,
      )
  permanence-broker_hop (Broker.latest_quote (MarketData.api_error status hint)) o message m g =
      ground (
        arith,
        H.from_u16_lem status,
        H.client_error_lem status,
        H.redirection_lem status,
        H.from_u16_lem 429,
      )
  permanence-broker_hop (Broker.latest_trade (MarketData.entitlement status)) o message m g =
      ground (arith, H.from_u16_lem status, H.client_error_lem status, H.redirection_lem status)
  permanence-broker_hop (Broker.latest_quote (MarketData.entitlement status)) o message m g =
      ground (arith, H.from_u16_lem status, H.client_error_lem status, H.redirection_lem status)
  permanence-broker_hop e o message m g = ground (arith, H.from_u16_lem 403)

  permanence-trade_hop :
      (e : AlpacaBrokerApiError H) (o : Operation) (message : List ℕ)
      → mutates o ≡ false
      → IsDirect H e
      → Broker.permanence (market_hop H Broker.latest_trade o message e) ≡ Broker.permanence e
  unfolding market_hop broker for_mutation body market_data_error Broker.permanence
  permanence-trade_hop (Broker.api_error status text hint) o message m g = ground (
    arith,
    H.from_u16_lem status,
    H.client_error_lem status,
    H.redirection_lem status,
    H.from_u16_lem 429,
  )
  permanence-trade_hop (Broker.latest_trade (MarketData.api_error status hint)) o message m g =
      ground (
        arith,
        H.from_u16_lem status,
        H.client_error_lem status,
        H.redirection_lem status,
        H.from_u16_lem 429,
      )
  permanence-trade_hop (Broker.latest_quote (MarketData.api_error status hint)) o message m g =
      ground (
        arith,
        H.from_u16_lem status,
        H.client_error_lem status,
        H.redirection_lem status,
        H.from_u16_lem 429,
      )
  permanence-trade_hop (Broker.latest_trade (MarketData.entitlement status)) o message m g =
      ground (arith, H.from_u16_lem status, H.client_error_lem status, H.redirection_lem status)
  permanence-trade_hop (Broker.latest_quote (MarketData.entitlement status)) o message m g =
      ground (arith, H.from_u16_lem status, H.client_error_lem status, H.redirection_lem status)
  permanence-trade_hop e o message m g =
      ground (arith, H.from_u16_lem 403, H.client_error_lem 403, H.redirection_lem 403)

  permanence-quote_hop :
      (e : AlpacaBrokerApiError H) (o : Operation) (message : List ℕ)
      → mutates o ≡ false
      → IsDirect H e
      → Broker.permanence (market_hop H Broker.latest_quote o message e) ≡ Broker.permanence e
  unfolding market_hop broker for_mutation body market_data_error Broker.permanence
  permanence-quote_hop (Broker.api_error status text hint) o message m g = ground (
    arith,
    H.from_u16_lem status,
    H.client_error_lem status,
    H.redirection_lem status,
    H.from_u16_lem 429,
  )
  permanence-quote_hop (Broker.latest_trade (MarketData.api_error status hint)) o message m g =
      ground (
        arith,
        H.from_u16_lem status,
        H.client_error_lem status,
        H.redirection_lem status,
        H.from_u16_lem 429,
      )
  permanence-quote_hop (Broker.latest_quote (MarketData.api_error status hint)) o message m g =
      ground (
        arith,
        H.from_u16_lem status,
        H.client_error_lem status,
        H.redirection_lem status,
        H.from_u16_lem 429,
      )
  permanence-quote_hop (Broker.latest_trade (MarketData.entitlement status)) o message m g =
      ground (arith, H.from_u16_lem status, H.client_error_lem status, H.redirection_lem status)
  permanence-quote_hop (Broker.latest_quote (MarketData.entitlement status)) o message m g =
      ground (arith, H.from_u16_lem status, H.client_error_lem status, H.redirection_lem status)
  permanence-quote_hop e o message m g =
      ground (arith, H.from_u16_lem 403, H.client_error_lem 403, H.redirection_lem 403)

  permanence-wallet_hop :
      (e : AlpacaWalletError H) (o : Operation) (message : List ℕ)
      → mutates o ≡ false
      → IsDirectWallet H e
      → Wallet.permanence (wallet_hop H untyped read o message e) ≡ Wallet.permanence e
  unfolding wallet_hop wallet for_mutation body wallet_error Wallet.permanence
  permanence-wallet_hop (Wallet.api_error status hint) o message m g = ground (
    arith,
    H.from_u16_lem status,
    H.client_error_lem status,
    H.redirection_lem status,
    H.from_u16_lem 429,
  )
  permanence-wallet_hop e o message m g =
      ground (arith, H.from_u16_lem 404, H.client_error_lem 404, H.redirection_lem 404)

  permanence-tokenization_hop :
      (e : AlpacaTokenizationError H) (o : Operation) (message : List ℕ)
      → mutates o ≡ false
      → IsDirectTokenization H e
      → Tokenization.permanence (tokenization_hop H untyped read o message e)
        ≡ Tokenization.permanence e
  unfolding tokenization_hop tokenization for_mutation body tokenization_error
      Tokenization.permanence
  permanence-tokenization_hop (Tokenization.api_error status hint) o message m g = ground (
    arith,
    H.from_u16_lem status,
    H.client_error_lem status,
    H.redirection_lem status,
    H.from_u16_lem 429,
  )
  permanence-tokenization_hop e o message m g = ground arith

  permanence-request_hop :
      (e : AlpacaTokenizationError H) (o : Operation) (message : List ℕ)
      → mutates o ≡ false
      → IsDirectTokenization H e
      → Tokenization.permanence (tokenization_hop H not_found read o message e)
        ≡ Tokenization.permanence e
  unfolding tokenization_hop tokenization for_mutation body tokenization_error not_found
      Tokenization.permanence
  permanence-request_hop (Tokenization.api_error status hint) o message m g = ground (
    arith,
    H.from_u16_lem status,
    H.client_error_lem status,
    H.redirection_lem status,
    H.from_u16_lem 429,
  )
  permanence-request_hop e o message m g = ground arith

  -- A read that fails at Alpaca is classified over the gateway as it is directly, so that a poll goes on or
  -- ends the same way: a market data read, the read of a tokenization request, and every other read of
  -- the broker, the wallet or tokenization. The failure is one of a client that talks to Alpaca itself,
  -- and the operation changes no state.
  pub any_permanence-over_hop :
      (f : FailedCall H) (o : Operation) (message : List ℕ)
      → mutates o ≡ false
      → IsDirectRead H f
      → any_permanence H (over_hop H o message f) ≡ any_permanence H (direct H f)
  any_permanence-over_hop (broker_call read e) o message m g =
      permanence-broker_hop e o message m g.1
  any_permanence-over_hop (trade_read e) o message m g = permanence-trade_hop e o message m g
  any_permanence-over_hop (quote_read e) o message m g = permanence-quote_hop e o message m g
  any_permanence-over_hop (wallet_call read e) o message m g =
      permanence-wallet_hop e o message m g.1
  any_permanence-over_hop (tokenization_call read e) o message m g =
      permanence-tokenization_hop e o message m g.1
  any_permanence-over_hop (request_read e) o message m g = permanence-request_hop e o message m g
  any_permanence-over_hop (broker_call mutation e) o message m g = elim g.0 [ ]
  any_permanence-over_hop (wallet_call mutation e) o message m g = elim g.0 [ ]
  any_permanence-over_hop (tokenization_call mutation e) o message m g = elim g.0 [ ]
  any_permanence-over_hop (placement_call failure) o message m g = elim g [ ]
  any_permanence-over_hop (withdrawal e) o message m g = elim g [ ]
  any_permanence-over_hop (mint e) o message m g = elim g [ ]
