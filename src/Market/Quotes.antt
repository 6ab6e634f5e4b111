-- ===== src/Market/Quotes.antt =====
-- src/broker/market_data.rs and `LatestQuote` of src/broker/session.rs: the latest trade and quotes of a
-- symbol, for market and overnight hours. The decoding of JSON is an argument; money and its tests are
-- the interface `Money`. Paths and what is logged are left out.
pub mod Laws
mod Tests
use st0x_alpaca.Prelude.{
  ℕ, ◌==◌, ◌||◌, not, Bool, true, false, List, Option, none, some, if◌then◌else◌, same_bytes,
  Result, ok, err, ◌>>=◌,
}
use st0x_alpaca.Errors.Http.{Http}
use st0x_alpaca.Errors.Jwt.{KmsJwtError}
use st0x_alpaca.Errors.MarketData.{
  AlpacaMarketDataError, auth, api_error, entitlement, missing_quote_timestamp, json_parse,
  latest_quote_json_parse, latest_quote_symbol_mismatch, missing_price, non_positive_price,
  missing_quote, missing_bid, missing_ask, non_positive_bid, non_positive_ask, invalid_quote,
  not_sent,
}
use st0x_alpaca.Errors.MarketData
use st0x_alpaca.Transport.{Scope, Response, Exchange, SendError, send, record_answer, Codec}
use st0x_alpaca.Transport

-- The outcome of `Positive::new`, which keeps a value that is above zero.
pub data Positivity : Type 0 where
  positive constraint comparison : Positivity

-- `lt` is `none` where the comparison fails.
pub record Money : Type 1 where
  pub Usd : Type 0
  pub positivity : Usd → Positivity
  pub lt : Usd → Usd → Option Bool

pub data QuoteFeed : Type 0 where
  delayed_sip overnight : QuoteFeed

pub data LatestQuoteError : Type 0 where
  float crossed : LatestQuoteError

module _ (M : Money) where
  pub record LatestQuote : Type 0 where
    pub bid : M.Usd
    pub ask : M.Usd

  pub record IndicativeQuote : Type 0 where
    pub quote : LatestQuote
    pub at : ℕ

  pub record LatestQuotePayload : Type 0 where
    pub bid : Option M.Usd
    pub ask : Option M.Usd
    pub at : Option ℕ

  pub record LatestQuoteEnvelope : Type 0 where
    pub symbol : List ℕ
    pub quote : Option LatestQuotePayload

  -- `LatestQuote::new`.
  unfoldable pub new : M.Usd → M.Usd → Result LatestQuote LatestQuoteError
  new bid ask = elim (M.lt ask bid) [
    | none ↦ err LatestQuoteError.float
    | some true ↦ err crossed
    | some false ↦ ok (record { bid = bid; ask = ask })
  ]

module _ (H : Http) (K : Codec) where
  unfoldable pub from_send_error : SendError H → AlpacaMarketDataError H
  from_send_error (Transport.http e) = MarketData.http e
  from_send_error Transport.not_sent = not_sent

  unfoldable pub answered : Response H → Result (List ℕ) (AlpacaMarketDataError H)
  answered r = elim r.body [
    | err e ↦ err (MarketData.http e)
    | ok bytes ↦
        if r.status == 401 || r.status == 403
        then err (entitlement r.status)
        else if not (K.is_success r.status)
        then err (api_error r.status r.retry_after)
        else ok bytes
  ]

  unfoldable pub received :
      Scope → Result (Response H) (SendError H) → Result (List ℕ) (AlpacaMarketDataError H) × Scope
  unfolding from_send_error answered record_answer
  received scope (err e) = (err (from_send_error e), scope)
  received scope (ok r) = (answered r, record_answer r.status r.request_id scope)

  -- `get_market_data_bytes`, past the mint of the request's token.
  unfoldable pub get_market_data_bytes :
      Scope → Exchange H → Result (List ℕ) (AlpacaMarketDataError H) × Scope
  unfolding received send
  get_market_data_bytes scope x = received scope (send H scope x).0

  unfoldable pub authorized :
      Exchange H
      → Scope × Option (KmsJwtError H)
      → Result (List ℕ) (AlpacaMarketDataError H) × Scope
  unfolding get_market_data_bytes
  authorized x (scope, some e) = (err (auth e), scope)
  authorized x (scope, none) = get_market_data_bytes scope x

  -- `market_data_get`, and the reading of its bytes.
  unfoldable pub market_data_get :
      Scope → Exchange H → Result (List ℕ) (AlpacaMarketDataError H) × Scope
  unfolding authorized
  market_data_get scope x = authorized x (x.mint scope)

  -- `ok_or_else`.
  unfoldable pub ok_or :
      {A : Type 0} → Option A → AlpacaMarketDataError H → Result A (AlpacaMarketDataError H)
  ok_or none e = err e
  ok_or (some a) e = ok a

  module _ (M : Money) where
    unfoldable pub map_positive_usd :
        M.Usd → AlpacaMarketDataError H → Result M.Usd (AlpacaMarketDataError H)
    map_positive_usd value constraint_error = elim (M.positivity value) [
      | positive ↦ ok value
      | constraint ↦ err constraint_error
      | comparison ↦ err AlpacaMarketDataError.float
    ]

    -- The price of a decoded trade, which may be missing.
    unfoldable pub trade_price : Option (Option M.Usd) → Result M.Usd (AlpacaMarketDataError H)
    unfolding map_positive_usd
    trade_price none = err json_parse
    trade_price (some none) = err missing_price
    trade_price (some (some price)) = map_positive_usd price non_positive_price

    unfoldable pub fetch_latest_trade_price :
        (List ℕ → Option (Option M.Usd))
        → Scope
        → Exchange H
        → Result M.Usd (AlpacaMarketDataError H) × Scope
    unfolding market_data_get trade_price
    fetch_latest_trade_price decode scope x =
        let c = market_data_get scope x in ((c.0 >>= (λ bytes. trade_price (decode bytes))), c.1)

    unfoldable pub validated :
        M.Usd → M.Usd → Option ℕ → Result (LatestQuote M × Option ℕ) (AlpacaMarketDataError H)
    unfolding new
    validated bid ask at = elim (new M bid ask) [
      | err _ ↦ err invalid_quote
      | ok quote ↦ ok (quote, at)
    ]

    unfoldable pub quoted :
        LatestQuotePayload M → Result (LatestQuote M × Option ℕ) (AlpacaMarketDataError H)
    unfolding map_positive_usd validated ok_or
    quoted quote = ok_or quote.bid missing_bid >>= (λ bid. ok_or quote.ask missing_ask >>= (λ ask.
        map_positive_usd bid non_positive_bid
        >>= (λ bid. map_positive_usd ask non_positive_ask >>= (λ ask. validated bid ask quote.at))))

    unfoldable pub quote_of :
        List ℕ
        → Option (LatestQuoteEnvelope M)
        → Result (LatestQuote M × Option ℕ) (AlpacaMarketDataError H)
    unfolding quoted ok_or
    quote_of symbol none = err latest_quote_json_parse
    quote_of symbol (some response) =
        if not (same_bytes response.symbol symbol)
        then err latest_quote_symbol_mismatch
        else ok_or response.quote missing_quote >>= quoted

    module _ (decode : List ℕ → Option (LatestQuoteEnvelope M)) where
      -- The exchange is that of the feed.
      unfoldable pub fetch_quote_and_timestamp :
          List ℕ
          → QuoteFeed
          → Scope
          → (QuoteFeed → Exchange H)
          → Result (LatestQuote M × Option ℕ) (AlpacaMarketDataError H) × Scope
      unfolding market_data_get quote_of
      fetch_quote_and_timestamp symbol feed scope x =
          let c = market_data_get scope (x feed) in
          ((c.0 >>= (λ bytes. quote_of symbol (decode bytes))), c.1)

      unfoldable pub fetch_latest_quote :
          List ℕ
          → Scope
          → (QuoteFeed → Exchange H)
          → Result (LatestQuote M) (AlpacaMarketDataError H) × Scope
      unfolding fetch_quote_and_timestamp
      fetch_latest_quote symbol scope x =
          let c = fetch_quote_and_timestamp symbol delayed_sip scope x in
          ((c.0 >>= (λ seen. ok seen.0)), c.1)

      unfoldable pub fetch_latest_overnight_quote :
          List ℕ
          → Scope
          → (QuoteFeed → Exchange H)
          → Result (IndicativeQuote M) (AlpacaMarketDataError H) × Scope
      unfolding fetch_quote_and_timestamp ok_or
      fetch_latest_overnight_quote symbol scope x =
          let c = fetch_quote_and_timestamp symbol overnight scope x in
          (
            (c.0 >>= (λ seen.
                ok_or seen.1 missing_quote_timestamp
                >>= (λ at. ok (record { quote = seen.0; at = at })))),
            c.1,
          )
