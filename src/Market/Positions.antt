-- ===== src/Market/Positions.antt =====
-- src/broker/positions.rs and src/broker/amount.rs: an account's holdings, its cash, and the broker's
-- mark of a symbol. What the client's requests answer, decoded, are arguments; the float crate, and the
-- tests of symbols and of positive amounts, are the interface `Amounts`. What is logged is left out.
pub mod Laws
mod Tests
use st0x_alpaca.Prelude.{
  ℕ, ◌+◌, ◌==◌, ◌&&◌, not, Bool, true, false, List, [], ◌∷◌, map, find, Option, none, some, leb,
  if◌then◌else◌, same_bytes, codes, Result, ok, err, ◌>>=◌,
}
use st0x_alpaca.Errors.Http.{Http}
use st0x_alpaca.Errors.Broker.{
  AlpacaBrokerApiError, alpaca_amount, api_error, fractional_cents, usd_balance_conversion,
  invalid_symbol, missing_position_quantity, float_conversion, position_symbol_mismatch,
}
use st0x_alpaca.Market.Quotes.{Positivity, positive, constraint, comparison}

-- `none` where the float crate fails. `Cents` are the values of an `i64`, `parse` reads the text of a
-- whole float as one, `no_usdc` is `Usdc::ZERO`, and `symbol` is `Symbol::new`.
pub record Amounts : Type 1 where
  pub Float : Type 0
  pub Cents : Type 0
  pub zero : Option Float
  pub no_usdc : Float
  pub hundred : Float
  pub lt : Float → Float → Option Bool
  pub mul : Float → Float → Option Float
  pub frac : Float → Option Float
  pub integer : Float → Option Float
  pub is_zero : Float → Option Bool
  pub to_fixed_decimal_lossy : Float → ℕ → Option (ℕ × Bool)
  pub from_fixed_decimal : ℕ → ℕ → Option Float
  pub format : Float → Option (List ℕ)
  pub parse : List ℕ → Option Cents
  pub positivity : Float → Positivity
  pub symbol : List ℕ → Option (List ℕ)

to_ascii_lowercase : ℕ → ℕ
to_ascii_lowercase c = if leb 65 c && leb c 90 then c + 32 else c

unfoldable pub eq_ignore_ascii_case : List ℕ → List ℕ → Bool
unfolding to_ascii_lowercase
eq_ignore_ascii_case xs ys = same_bytes (map to_ascii_lowercase xs) (map to_ascii_lowercase ys)

abbrev pub usdcusd : List ℕ
usdcusd = codes "USDCUSD"

module _ (F : Amounts) where
  pub record AlpacaAmount : Type 0 where
    pub raw : F.Float
    pub normalized : F.Float

  pub record EquityPosition : Type 0 where
    pub symbol : List ℕ
    pub quantity : F.Float
    pub market_value : Option F.Float

  pub record AccountFunds : Type 0 where
    pub balance : F.Cents
    pub buying_power : F.Cents
    pub withdrawable : Option F.Cents

  pub record PositionResponse : Type 0 where
    pub symbol : List ℕ
    pub asset_class : Option (List ℕ)
    pub exchange : Option (List ℕ)
    pub quantity : F.Float
    pub total_quantity : Option F.Float
    pub market_value : Option F.Float
    pub current_price : Option F.Float

  pub record AccountDetailsResponse : Type 0 where
    pub cash : F.Float
    pub cash_withdrawable : Option F.Float

  pub record Inventory : Type 0 where
    pub positions : List EquityPosition
    pub alpaca_usdc : Option F.Float
    pub usd_balance_cents : F.Cents
    pub cash_buying_power_cents : Option F.Cents
    pub cash_withdrawable_cents : Option F.Cents

  classed_non_equity : Option (List ℕ) → Option (List ℕ) → Bool
  unfolding eq_ignore_ascii_case
  classed_non_equity (some asset_class) exchange =
      not (eq_ignore_ascii_case asset_class (codes "us_equity"))
  classed_non_equity none (some exchange) = eq_ignore_ascii_case exchange (codes "CRYPTO")
  classed_non_equity none none = false

  unfoldable pub is_non_equity : PositionResponse → Bool
  unfolding classed_non_equity
  is_non_equity p =
      if same_bytes p.symbol usdcusd then true else classed_non_equity p.asset_class p.exchange

  module _ (H : Http) where
    -- `map_err`.
    unfoldable pub or_else :
        {A : Type 0} → Option A → AlpacaBrokerApiError H → Result A (AlpacaBrokerApiError H)
    or_else none e = err e
    or_else (some a) e = ok a

    -- `NegativeValue` and the failures of floats are errors of an amount alike.
    unfoldable pub floor_to_6_decimals : F.Float → Result F.Float (AlpacaBrokerApiError H)
    unfolding or_else
    floor_to_6_decimals amount =
        or_else F.zero alpaca_amount
        >>= (λ zero. or_else (F.lt amount zero) alpaca_amount)
        >>= (λ negative.
            if negative
            then err alpaca_amount
            else or_else (F.to_fixed_decimal_lossy amount 6) alpaca_amount)
        >>= (λ fixed. or_else (F.from_fixed_decimal fixed.0 6) alpaca_amount)

    -- `AlpacaAmount::try_from`.
    unfoldable pub try_from : F.Float → Result AlpacaAmount (AlpacaBrokerApiError H)
    unfolding floor_to_6_decimals
    try_from amount =
        floor_to_6_decimals amount
        >>= (λ normalized. ok (record { raw = amount; normalized = normalized }))

    unfoldable pub usdc_of : Option PositionResponse → Result F.Float (AlpacaBrokerApiError H)
    unfolding try_from or_else
    usdc_of none = ok F.no_usdc
    usdc_of (some position) =
        or_else position.total_quantity missing_position_quantity
        >>= try_from
        >>= (λ amount. ok amount.normalized)

    unfoldable pub alpaca_usdc_balance :
        List PositionResponse → Result F.Float (AlpacaBrokerApiError H)
    unfolding usdc_of
    alpaca_usdc_balance positions = usdc_of (find (λ p. same_bytes p.symbol usdcusd) positions)

    unfoldable pub to_cash_value_cents : F.Float → Result F.Cents (AlpacaBrokerApiError H)
    unfolding or_else
    to_cash_value_cents cash = or_else (F.mul cash F.hundred) float_conversion >>= (λ cents.
        or_else (F.frac cents) float_conversion >>= (λ frac.
          or_else (F.is_zero frac) float_conversion >>= (λ whole.
            if not whole
            then err fractional_cents
            else or_else (F.integer cents) float_conversion >>= (λ integer_cents.
              or_else (F.format integer_cents) float_conversion
              >>= (λ formatted. or_else (F.parse formatted) usd_balance_conversion)))))

    -- `.map(to_cash_value_cents).transpose()`.
    unfoldable pub to_cents : Option F.Float → Result (Option F.Cents) (AlpacaBrokerApiError H)
    unfolding to_cash_value_cents
    to_cents none = ok none
    to_cents (some cash) = to_cash_value_cents cash >>= (λ cents. ok (some cents))

    unfoldable pub get_account_funds :
        Result AccountDetailsResponse (AlpacaBrokerApiError H)
        → Result AccountFunds (AlpacaBrokerApiError H)
    unfolding to_cash_value_cents to_cents
    get_account_funds details = details >>= (λ account.
        to_cash_value_cents account.cash >>= (λ balance.
          to_cents account.cash_withdrawable >>= (λ withdrawable.
            ok
              (record { balance = balance; buying_power = balance; withdrawable = withdrawable }))))

    unfoldable pub equity_of : PositionResponse → Result EquityPosition (AlpacaBrokerApiError H)
    unfolding or_else
    equity_of position = or_else (F.symbol position.symbol) invalid_symbol >>= (λ symbol.
        ok (record {
          symbol = symbol;
          quantity = position.quantity;
          market_value = position.market_value;
        }))

    -- The filter, the map and the collection of `fetch_inventory`.
    unfoldable pub equities :
        List PositionResponse → Result (List EquityPosition) (AlpacaBrokerApiError H)
    unfolding equity_of is_non_equity
    equities [] = ok []
    equities (position ∷ positions) =
        let rest = equities positions in
        if is_non_equity position
        then rest
        else equity_of position >>= (λ equity. rest >>= (λ others. ok (equity ∷ others)))

    unfoldable pub fetch_inventory :
        Result (List PositionResponse) (AlpacaBrokerApiError H)
        → Result AccountDetailsResponse (AlpacaBrokerApiError H)
        → Result Inventory (AlpacaBrokerApiError H)
    unfolding get_account_funds alpaca_usdc_balance equities
    fetch_inventory listed details = listed >>= (λ positions.
        get_account_funds details >>= (λ account_funds.
          alpaca_usdc_balance positions >>= (λ alpaca_usdc.
            equities positions >>= (λ broker_positions. ok (record {
              positions = broker_positions;
              alpaca_usdc = some alpaca_usdc;
              usd_balance_cents = account_funds.balance;
              cash_buying_power_cents = some account_funds.buying_power;
              cash_withdrawable_cents = account_funds.withdrawable;
            })))))

    unfoldable pub classify_position_mark :
        F.Float → Positivity → Result (Option F.Float) (AlpacaBrokerApiError H)
    classify_position_mark mark positive = ok (some mark)
    classify_position_mark mark constraint = ok none
    classify_position_mark mark comparison = err float_conversion

    unfoldable pub mark_of :
        List ℕ → PositionResponse → Result (Option F.Float) (AlpacaBrokerApiError H)
    unfolding or_else is_non_equity classify_position_mark
    mark_of symbol position =
        or_else (F.symbol position.symbol) invalid_symbol >>= (λ returned_symbol.
          if not (same_bytes returned_symbol symbol)
          then err position_symbol_mismatch
          else if is_non_equity position
          then ok none
          else (elim position.current_price [
            | none ↦ ok none
            | some price ↦ classify_position_mark price (F.positivity price)
          ]))

    unfoldable pub fetch_position_mark :
        List ℕ
        → Result PositionResponse (AlpacaBrokerApiError H)
        → Result (Option F.Float) (AlpacaBrokerApiError H)
    unfolding mark_of
    fetch_position_mark symbol (ok position) = mark_of symbol position
    fetch_position_mark symbol (err (api_error status message hint)) =
        if status == 404 then ok none else err (api_error status message hint)
    fetch_position_mark symbol (err e) = err e
