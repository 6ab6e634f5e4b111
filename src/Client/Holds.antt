-- ===== src/Client/Holds.antt =====
-- The wait that Alpaca asks for, over the gateway of crates/gateway/src/answer.rs and its client in
-- crates/gateway-api/src/client/adapter.rs.
use st0x_alpaca.Prelude.{
  ℕ, ◌+◌, ◌*◌, ◌≤◌, ◌<◌, ◌^◌, ◌-◌, ◌≡◌, subst, sym, Bool-cases, ◌⊎◌, inl, inr, List, Option, some,
  arith,
}
use st0x_alpaca.Catalog.Operation.{Operation}
use st0x_alpaca.Errors.Http.{Http}
use st0x_alpaca.Errors.MarketData
use st0x_alpaca.Errors.Broker.{AlpacaBrokerApiError, PlacementError}
use st0x_alpaca.Errors.Broker
use st0x_alpaca.Errors.Wallet.{AlpacaWalletError}
use st0x_alpaca.Errors.Wallet
use st0x_alpaca.Errors.Tokenization.{AlpacaTokenizationError}
use st0x_alpaca.Errors.Tokenization
use st0x_alpaca.Gateway.Failure.{
  Failure, ErrorBody, RejectionReason, body, for_mutation, whole_seconds, outcome_unknown,
}
use st0x_alpaca.Gateway.Answer.{Sent, read, mutation}
use st0x_alpaca.Gateway.Answer.Broker.{broker, placement}
use st0x_alpaca.Gateway.Answer.Clients.{wallet, tokenization}
use st0x_alpaca.Client.{gateway, nanos_per_sec}
use st0x_alpaca.Gateway.Answer.Laws.{whole_seconds_bounds}
use st0x_alpaca.Client.Family.{
  broker_hop, market_hop, placement_hop, wallet_hop, tokenization_hop, FailedCall, broker_call,
  trade_read, quote_read, placement_call, wallet_call, withdrawal, tokenization_call, request_read,
  mint, direct, over_hop, any_backpressure,
}
use st0x_alpaca.Client.Adapter.{
  broker_error, market_data_error, wallet_error, tokenization_error, untyped, not_whitelisted,
  not_found, mint_rejection,
}

module _ (H : Http) where
  -- The hold in whole seconds, in nanoseconds.
  abbrev hold : ℕ → ℕ
  hold wait = whole_seconds wait * nanos_per_sec

  broker_hold :
      (e : AlpacaBrokerApiError H) (sent : Sent) (o : Operation) (message : List ℕ) (wait : ℕ)
      → Broker.backpressure e ≡ some (record { retry_after = some wait })
      → Broker.backpressure (broker_hop H sent o message e)
        ≡ some (record { retry_after = some (hold wait) })
  unfolding broker_hop broker for_mutation body broker_error Broker.backpressure
  broker_hold (Broker.api_error status text hint) sent o message wait h =
      ground (arith, H.from_u16_lem status)
  broker_hold (Broker.latest_trade (MarketData.api_error status hint)) sent o message wait h =
      ground (arith, H.from_u16_lem status)
  broker_hold (Broker.latest_quote (MarketData.api_error status hint)) sent o message wait h =
      ground (arith, H.from_u16_lem status)
  broker_hold e sent o message wait h = ground arith

  trade_hold :
      (e : AlpacaBrokerApiError H) (o : Operation) (message : List ℕ) (wait : ℕ)
      → Broker.backpressure e ≡ some (record { retry_after = some wait })
      → Broker.backpressure (market_hop H Broker.latest_trade o message e)
        ≡ some (record { retry_after = some (hold wait) })
  unfolding market_hop broker for_mutation body market_data_error Broker.backpressure
  trade_hold (Broker.api_error status text hint) o message wait h =
      ground (arith, H.from_u16_lem status)
  trade_hold (Broker.latest_trade (MarketData.api_error status hint)) o message wait h =
      ground (arith, H.from_u16_lem status)
  trade_hold (Broker.latest_quote (MarketData.api_error status hint)) o message wait h =
      ground (arith, H.from_u16_lem status)
  trade_hold e o message wait h = ground arith

  quote_hold :
      (e : AlpacaBrokerApiError H) (o : Operation) (message : List ℕ) (wait : ℕ)
      → Broker.backpressure e ≡ some (record { retry_after = some wait })
      → Broker.backpressure (market_hop H Broker.latest_quote o message e)
        ≡ some (record { retry_after = some (hold wait) })
  unfolding market_hop broker for_mutation body market_data_error Broker.backpressure
  quote_hold (Broker.api_error status text hint) o message wait h =
      ground (arith, H.from_u16_lem status)
  quote_hold (Broker.latest_trade (MarketData.api_error status hint)) o message wait h =
      ground (arith, H.from_u16_lem status)
  quote_hold (Broker.latest_quote (MarketData.api_error status hint)) o message wait h =
      ground (arith, H.from_u16_lem status)
  quote_hold e o message wait h = ground arith

  -- The hop of a failure.
  abbrev IsHeldOver : Operation → List ℕ → ℕ → Failure → Type 0
  IsHeldOver o message wait f =
      Broker.backpressure {H = H} (broker_error o (gateway (body (for_mutation f o) message)))
      ≡ some (record { retry_after = some (hold wait) })

  unknown_hold :
      (f : Failure) (o : Operation) (message : List ℕ) (wait : ℕ)
      → f.code ≡ outcome_unknown
      → f.retry_after ≡ some wait
      → IsHeldOver o message wait f
  unfolding for_mutation body broker_error Broker.backpressure
  unknown_hold f o message wait c h = ground arith

  placement_hold :
      (failure : PlacementError H) (o : Operation) (message : List ℕ) (wait : ℕ)
      → Broker.backpressure failure.error ≡ some (record { retry_after = some wait })
      → Broker.backpressure (placement_hop H o message failure)
        ≡ some (record { retry_after = some (hold wait) })
  unfolding placement_hop broker_hop placement
  placement_hold failure o message wait h = elim (Bool-cases failure.written) [
    | inl w ↦ unknown_hold (placement H failure) o message wait (ground arith) (ground arith)
    | inr w ↦
        let same : placement H failure ≡ broker H failure.error read = ground arith in
        subst (IsHeldOver o message wait) (sym same)
          (broker_hold failure.error read o message wait h)
  ]

  wallet_hold :
      (rebuild : RejectionReason → ErrorBody → Option (AlpacaWalletError H))
      (e : AlpacaWalletError H) (sent : Sent) (o : Operation) (message : List ℕ) (wait : ℕ)
      → Wallet.backpressure e ≡ some (record { retry_after = some wait })
      → Wallet.backpressure (wallet_hop H rebuild sent o message e)
        ≡ some (record { retry_after = some (hold wait) })
  unfolding wallet_hop wallet for_mutation body wallet_error Wallet.backpressure
  wallet_hold rebuild (Wallet.api_error status hint) sent o message wait h =
      ground (arith, H.from_u16_lem status)
  wallet_hold rebuild e sent o message wait h = ground arith

  tokenization_hold :
      (rebuild : RejectionReason → ErrorBody → Option (AlpacaTokenizationError H))
      (e : AlpacaTokenizationError H) (sent : Sent) (o : Operation) (message : List ℕ) (wait : ℕ)
      → Tokenization.backpressure e ≡ some (record { retry_after = some wait })
      → Tokenization.backpressure (tokenization_hop H rebuild sent o message e)
        ≡ some (record { retry_after = some (hold wait) })
  unfolding tokenization_hop tokenization for_mutation body tokenization_error
      Tokenization.backpressure
  tokenization_hold rebuild (Tokenization.api_error status hint) sent o message wait h =
      ground (arith, H.from_u16_lem status)
  tokenization_hold rebuild e sent o message wait h = ground arith

  any_hold :
      (f : FailedCall H) (o : Operation) (message : List ℕ) (wait : ℕ)
      → any_backpressure H (direct H f) ≡ some (record { retry_after = some wait })
      → any_backpressure H (over_hop H o message f)
        ≡ some (record { retry_after = some (hold wait) })
  any_hold (broker_call sent e) o message wait h = broker_hold e sent o message wait h
  any_hold (trade_read e) o message wait h = trade_hold e o message wait h
  any_hold (quote_read e) o message wait h = quote_hold e o message wait h
  any_hold (placement_call failure) o message wait h = placement_hold failure o message wait h
  any_hold (wallet_call sent e) o message wait h = wallet_hold untyped e sent o message wait h
  any_hold (withdrawal e) o message wait h = wallet_hold not_whitelisted e mutation o message wait h
  any_hold (tokenization_call sent e) o message wait h =
      tokenization_hold untyped e sent o message wait h
  any_hold (request_read e) o message wait h = tokenization_hold not_found e read o message wait h
  any_hold (mint e) o message wait h = tokenization_hold mint_rejection e mutation o message wait h

  -- A wait that Alpaca asks for survives the gateway: whichever call of the broker, of market data,
  -- of the wallet or of tokenization failed, a placement included, its caller is told to wait, for no less
  -- than Alpaca asked. The wait is shorter than 2^64 - 1 seconds.
  pub any_backpressure-over_hop :
      (f : FailedCall H) (o : Operation) (message : List ℕ) (wait : ℕ)
      → wait < (2 ^ 64 - 1) * 1_000_000_000
      → any_backpressure H (direct H f) ≡ some (record { retry_after = some wait })
      → (longer : ℕ) × (any_backpressure H (over_hop H o message f)
          ≡ some (record { retry_after = some longer }))
        × (wait ≤ longer)
  any_backpressure-over_hop f o message wait b h =
      (hold wait, any_hold f o message wait h, no_sooner (whole_seconds_bounds wait b))
    where
      no_sooner :
          (1 ≤ whole_seconds wait)
            × (wait ≤ whole_seconds wait * 1_000_000_000)
            × ((whole_seconds wait ≡ 1)
                ⊎ (whole_seconds wait * 1_000_000_000 < wait + 1_000_000_000))
          → wait ≤ hold wait
      no_sooner (_, b, _) = b
