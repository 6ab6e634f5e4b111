-- ===== src/Market/Positions/Tests.antt =====
-- Examples for holdings: whole floats, an equity, and USDC of which a part is locked.
use st0x_alpaca.Prelude.{
  ℕ, ◌*◌, ◌==◌, refl, true, [], ◌∷◌, none, some, ltb, if◌then◌else◌, ok, codes, Result,
}
use st0x_alpaca.Errors.Sample.{http}
use st0x_alpaca.Errors.Broker.{AlpacaBrokerApiError}
use st0x_alpaca.Market.Quotes.{positive, constraint}
use st0x_alpaca.Market.Positions.{
  Amounts, eq_ignore_ascii_case, PositionResponse, AccountDetailsResponse, Inventory, is_non_equity,
  floor_to_6_decimals, equities, fetch_inventory, equity_of, or_else, alpaca_usdc_balance, usdc_of,
  try_from, get_account_funds, to_cash_value_cents, to_cents,
}
use st0x_alpaca.Market.Positions.Laws.{IsInventory, fetch_inventory-IsInventory}

abbrev amounts : Amounts
amounts = record {
  Float = ℕ;
  Cents = ℕ;
  zero = some 0;
  no_usdc = 0;
  hundred = 100;
  lt = λ a b. some (ltb a b);
  mul = λ a b. some (a * b);
  frac = λ a. some 0;
  integer = λ a. some a;
  is_zero = λ a. some (a == 0);
  to_fixed_decimal_lossy = λ a places. some (a, true);
  from_fixed_decimal = λ a places. some a;
  format = λ a. some (a ∷ []);
  parse = λ text. elim text [ [] ↦ none | a ∷ _ ↦ some a ];
  positivity = λ a. if ltb 0 a then positive else constraint;
  symbol = λ text. some text;
}

abbrev equity : PositionResponse amounts
equity = record {
  symbol = codes "AAPL";
  asset_class = some (codes "us_equity");
  exchange = none;
  quantity = 5;
  total_quantity = some 7;
  market_value = some 900;
  current_price = some 180;
}

abbrev usdc : PositionResponse amounts
usdc = record equity {
  symbol = codes "USDCUSD";
  asset_class = none;
  quantity = 20;
  total_quantity = some 30;
}

abbrev details : Result (AccountDetailsResponse amounts) (AlpacaBrokerApiError http)
details = ok (record { cash = 12; cash_withdrawable = none })

abbrev inventory : Inventory amounts
inventory = record {
  positions = record { symbol = codes "AAPL"; quantity = 5; market_value = some 900 } ∷ [];
  alpaca_usdc = some 30;
  usd_balance_cents = 1200;
  cash_buying_power_cents = some 1200;
  cash_withdrawable_cents = none;
}

fetch_inventory-IsInventory_example : IsInventory http amounts (usdc ∷ equity ∷ []) inventory
unfolding fetch_inventory get_account_funds to_cash_value_cents to_cents alpaca_usdc_balance usdc_of
    try_from floor_to_6_decimals or_else equities equity_of is_non_equity eq_ignore_ascii_case
fetch_inventory-IsInventory_example =
    fetch_inventory-IsInventory http amounts (usdc ∷ equity ∷ []) details inventory refl
