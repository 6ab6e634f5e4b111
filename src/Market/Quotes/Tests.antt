-- ===== src/Market/Quotes/Tests.antt =====
-- Examples for quotes: whole dollars, and an answer with a bid of 3 and an ask of 4.
use st0x_alpaca.Prelude.{ℕ, refl, List, Option, some, ltb, if◌then◌else◌, codes}
use st0x_alpaca.Errors.Sample.{http}
use st0x_alpaca.Transport.{Exchange, send, held_back, is_held}
use st0x_alpaca.Transport.Sample.{codec, scope, answering}
use st0x_alpaca.Market.Quotes.{
  positive, constraint, Money, QuoteFeed, overnight, LatestQuote, IndicativeQuote,
  LatestQuoteEnvelope, new, answered, get_market_data_bytes, market_data_get, map_positive_usd,
  quoted, quote_of, received, authorized, fetch_quote_and_timestamp, fetch_latest_overnight_quote,
  validated, ok_or,
}
use st0x_alpaca.Market.Quotes.Laws.{IsAnswer, IsValid, fetch_latest_overnight_quote-IsAnswer}

abbrev money : Money
money = record {
  Usd = ℕ;
  positivity = λ v. if ltb 0 v then positive else constraint;
  lt = λ a b. some (ltb a b);
}

abbrev envelope : LatestQuoteEnvelope money
envelope = record {
  symbol = codes "AAPL";
  quote = some (record { bid = some 3; ask = some 4; at = some 60 });
}

abbrev decode : List ℕ → Option (LatestQuoteEnvelope money)
decode bytes = some envelope

abbrev exchange : QuoteFeed → Exchange http
exchange feed = answering 200

abbrev quote : LatestQuote money
quote = record { bid = 3; ask = 4 }

abbrev indicative : IndicativeQuote money
indicative = record { quote = quote; at = 60 }

fetch_latest_overnight_quote-IsAnswer_example :
    IsAnswer http codec money decode (codes "AAPL") quote (some 60) (exchange overnight).answer
    × IsValid http codec money decode quote
unfolding fetch_latest_overnight_quote fetch_quote_and_timestamp market_data_get authorized
    get_market_data_bytes received answered send held_back is_held quote_of quoted ok_or
    map_positive_usd validated new
fetch_latest_overnight_quote-IsAnswer_example =
    fetch_latest_overnight_quote-IsAnswer http codec money decode (codes "AAPL") scope exchange
      indicative refl
