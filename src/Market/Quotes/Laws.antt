-- ===== src/Market/Quotes/Laws.antt =====
-- What a price of src/broker/market_data.rs stands for.
use st0x_alpaca.Prelude.{
  ℕ, ◌≡◌, true, false, List, Option, none, some, same_bytes, same_bytes-eq, arith, Result, ok, err,
  Result-cases, inl, inr, Bool-cases, subst, sym,
}
use st0x_alpaca.Errors.Http.{Http}
use st0x_alpaca.Transport.{Scope, Response, Exchange, send, Codec}
use st0x_alpaca.Market.Quotes.{
  positive, Money, QuoteFeed, delayed_sip, overnight, LatestQuote, IndicativeQuote,
  LatestQuotePayload, LatestQuoteEnvelope, new, answered, get_market_data_bytes, market_data_get,
  map_positive_usd, quoted, quote_of, received, authorized, fetch_quote_and_timestamp,
  fetch_latest_quote, fetch_latest_overnight_quote, validated, ok_or,
}

module _ (H : Http) (K : Codec) (M : Money) (decode : List ℕ → Option (LatestQuoteEnvelope M)) where
  -- A quote that can be priced from: both sides are positive, and the ask is not below the bid.
  abbrev pub IsValid : LatestQuote M → Type 0
  IsValid quote =
      (M.positivity quote.bid ≡ positive)
      × (M.positivity quote.ask ≡ positive)
      × (M.lt quote.ask quote.bid ≡ some false)

  -- The quote is that of the answer's body, for the symbol.
  abbrev pub IsPayload : LatestQuote M → Option ℕ → Option (LatestQuotePayload M) → Type 0
  IsPayload quote at none = ⊥
  IsPayload quote at (some p) = (p.bid ≡ some quote.bid) × (p.ask ≡ some quote.ask) × (p.at ≡ at)

  abbrev pub IsEnvelope :
      List ℕ → LatestQuote M → Option ℕ → Option (LatestQuoteEnvelope M) → Type 0
  IsEnvelope symbol quote at none = ⊥
  IsEnvelope symbol quote at (some r) = (r.symbol ≡ symbol) × IsPayload quote at r.quote

  abbrev pub IsBody : List ℕ → LatestQuote M → Option ℕ → Result (List ℕ) H.Error → Type 0
  IsBody symbol quote at (err _) = ⊥
  IsBody symbol quote at (ok bytes) = IsEnvelope symbol quote at (decode bytes)

  abbrev pub IsAnswer : List ℕ → LatestQuote M → Option ℕ → Result (Response H) H.Error → Type 0
  IsAnswer symbol quote at (err _) = ⊥
  IsAnswer symbol quote at (ok r) = (K.is_success r.status ≡ true) × IsBody symbol quote at r.body

  quote_of-IsEnvelope :
      (symbol : List ℕ) (r : Option (LatestQuoteEnvelope M)) (quote : LatestQuote M) (at : Option ℕ)
      → quote_of H K M symbol r ≡ ok (quote, at)
      → IsEnvelope symbol quote at r × IsValid quote
  unfolding quote_of quoted ok_or map_positive_usd validated new
  quote_of-IsEnvelope symbol none quote at e = ground arith
  quote_of-IsEnvelope symbol (some r) quote at e = elim (Bool-cases (same_bytes r.symbol symbol)) [
    | inl h ↦ ground (arith, same_bytes-eq r.symbol symbol h)
    | inr h ↦ ground arith
  ]

  -- The bytes are the body of a successful answer.
  abbrev IsRead : List ℕ → Result (Response H) H.Error → Type 0
  IsRead bytes (err _) = ⊥
  IsRead bytes (ok r) = (K.is_success r.status ≡ true) × (r.body ≡ ok bytes)

  market_data_get-IsRead :
      (scope : Scope) (x : Exchange H) (bytes : List ℕ)
      → (market_data_get H K scope x).0 ≡ ok bytes
      → IsRead bytes x.answer
  unfolding market_data_get authorized get_market_data_bytes received answered send
  market_data_get-IsRead scope x bytes e = ground arith

  IsRead-IsAnswer :
      (symbol : List ℕ) (quote : LatestQuote M) (at : Option ℕ) (bytes : List ℕ)
      (answer : Result (Response H) H.Error)
      → IsRead bytes answer
      → IsEnvelope symbol quote at (decode bytes)
      → IsAnswer symbol quote at answer
  IsRead-IsAnswer symbol quote at bytes (err _) r i = elim r [ ]
  IsRead-IsAnswer symbol quote at bytes (ok r) (s, b) i =
      (s, subst (IsBody symbol quote at) (sym b) i)

  fetch_quote_and_timestamp-IsAnswer :
      (symbol : List ℕ) (feed : QuoteFeed) (scope : Scope) (x : QuoteFeed → Exchange H)
      (quote : LatestQuote M) (at : Option ℕ)
      → (fetch_quote_and_timestamp H K M decode symbol feed scope x).0 ≡ ok (quote, at)
      → IsAnswer symbol quote at (x feed).answer × IsValid quote
  unfolding fetch_quote_and_timestamp
  fetch_quote_and_timestamp-IsAnswer symbol feed scope x quote at e =
      elim (Result-cases (market_data_get H K scope (x feed)).0) [
        | inl (bytes, b) ↦
            let found = quote_of-IsEnvelope symbol (decode bytes) quote at cc in
            let read = market_data_get-IsRead scope (x feed) bytes b in
            (IsRead-IsAnswer symbol quote at bytes (x feed).answer read found.0, found.1)
        | inr (failure, b) ↦ cc
      ]

  -- A latest quote has positive sides of which the ask is not below the bid, and they are the sides that a
  -- successful answer on the delayed feed gives for the symbol that was asked for.
  pub fetch_latest_quote-IsAnswer :
      (symbol : List ℕ) (scope : Scope) (x : QuoteFeed → Exchange H) (quote : LatestQuote M)
      → (fetch_latest_quote H K M decode symbol scope x).0 ≡ ok quote
      → ((at : Option ℕ) × IsAnswer symbol quote at (x delayed_sip).answer) × IsValid quote
  unfolding fetch_latest_quote
  fetch_latest_quote-IsAnswer symbol scope x quote e =
      elim (Result-cases (fetch_quote_and_timestamp H K M decode symbol delayed_sip scope x).0) [
        | inl ((quote', at), b) ↦
            let same_quote : quote' ≡ quote = ground arith in
            let found = fetch_quote_and_timestamp-IsAnswer symbol delayed_sip scope x quote at cc in
            ((at, found.0), found.1)
        | inr (failure, b) ↦ cc
      ]

  -- An overnight quote has positive sides of which the ask is not below the bid, and they are the sides
  -- that a successful answer on the overnight feed gives for the symbol that was asked for; the answer
  -- dates them, and the quote has that time.
  pub fetch_latest_overnight_quote-IsAnswer :
      (symbol : List ℕ) (scope : Scope) (x : QuoteFeed → Exchange H) (q : IndicativeQuote M)
      → (fetch_latest_overnight_quote H K M decode symbol scope x).0 ≡ ok q
      → IsAnswer symbol q.quote (some q.at) (x overnight).answer × IsValid q.quote
  unfolding fetch_latest_overnight_quote ok_or
  fetch_latest_overnight_quote-IsAnswer symbol scope x q e =
      elim (Result-cases (fetch_quote_and_timestamp H K M decode symbol overnight scope x).0) [
        | inl ((quote, none), b) ↦ cc
        | inl ((quote, some at), b) ↦
            let whole : q ≡ record { quote = quote; at = at } = ground arith in
            fetch_quote_and_timestamp-IsAnswer symbol overnight scope x q.quote (some q.at) cc
        | inr (failure, b) ↦ cc
      ]
