-- ===== src/Market/Positions/Laws.antt =====
-- What an inventory and a mark of src/broker/positions.rs stand for.
use st0x_alpaca.Prelude.{
  ℕ, ◌≡◌, ◌≢◌, ◌↔◌, codes, ◌⊎◌, inl, inr, refl, true, false, List, [], ◌∷◌, Option, none, some,
  find, same_bytes, same_bytes-eq, arith, Result, ok, err, Result-cases, Bool-cases, subst, sym,
  Option-cases,
}
use st0x_alpaca.Errors.Http.{Http}
use st0x_alpaca.Errors.Broker.{AlpacaBrokerApiError}
use st0x_alpaca.Market.Quotes.{positive}
use st0x_alpaca.Market.Positions.{
  Amounts, usdcusd, EquityPosition, PositionResponse, AccountDetailsResponse, AccountFunds,
  Inventory, is_non_equity, classed_non_equity, eq_ignore_ascii_case, floor_to_6_decimals, equities,
  fetch_inventory, mark_of, fetch_position_mark, equity_of, or_else, alpaca_usdc_balance, usdc_of,
  try_from, classify_position_mark, get_account_funds,
}

module _ (H : Http) (F : Amounts) where
  -- By its asset class, or by its exchange if it has no class.
  abbrev pub IsEquityClass : Option (List ℕ) → Option (List ℕ) → Type 0
  IsEquityClass (some asset_class) exchange =
      eq_ignore_ascii_case asset_class (codes "us_equity") ≡ true
  IsEquityClass none (some exchange) = eq_ignore_ascii_case exchange (codes "CRYPTO") ≡ false
  IsEquityClass none none = Unit

  -- An equity position: not the USDC one, and of an equity's class.
  abbrev pub IsEquity : PositionResponse F → Type 0
  IsEquity p = (p.symbol ≢ usdcusd) × IsEquityClass p.asset_class p.exchange

  -- The entry of an equity position.
  abbrev pub IsEntryOf : PositionResponse F → EquityPosition F → Type 0
  IsEntryOf p e =
      IsEquity p
      × (F.symbol p.symbol ≡ some e.symbol)
      × (e.quantity ≡ p.quantity)
      × (e.market_value ≡ p.market_value)

  -- The entries are those of the equity positions, one by one.
  abbrev pub Match : List (PositionResponse F) → List (EquityPosition F) → Type 0
  Match [] [] = Unit
  Match [] (_ ∷ _) = ⊥
  Match (p ∷ ps) [] = (¬ IsEquity p) × Match ps []
  Match (p ∷ ps) (e ∷ es) = (IsEntryOf p e × Match ps es) ⊎ ((¬ IsEquity p) × Match ps (e ∷ es))

  classed-IsEquityClass :
      (asset_class exchange : Option (List ℕ))
      → (classed_non_equity F asset_class exchange ≡ false) ↔ IsEquityClass asset_class exchange
  unfolding classed_non_equity
  classed-IsEquityClass (some c) exchange = (ground arith, ground arith)
  classed-IsEquityClass none (some exchange) = (λ h. h, λ h. h)
  classed-IsEquityClass none none = (λ h. tt, λ h. refl)

  is_non_equity-IsEquity : (p : PositionResponse F) → (is_non_equity F p ≡ false) ↔ IsEquity p
  unfolding is_non_equity
  is_non_equity-IsEquity p =
      let class = classed-IsEquityClass p.asset_class p.exchange in
      elim (Bool-cases (same_bytes p.symbol usdcusd)) [
        | inl u ↦
            ((λ n. absurd (ground arith)), (λ e. absurd (e.0 (same_bytes-eq p.symbol usdcusd u))))
        | inr u ↦ (
          (λ n. (
            (λ same. let clash = subst (λ t. same_bytes t usdcusd ≡ false) same u in ground arith),
            class.0 (ground arith),
          )),
          (λ e. let c = class.1 e.1 in ground arith),
        )
      ]

  equity_of-IsEntryOf :
      (p : PositionResponse F) (e : EquityPosition F)
      → is_non_equity F p ≡ false
      → equity_of F H p ≡ ok e
      → IsEntryOf p e
  unfolding equity_of or_else
  equity_of-IsEntryOf p e n h =
      ((is_non_equity-IsEquity p).0 n, ground arith, ground arith, ground arith)

  Match-skip :
      (p : PositionResponse F) (ps : List (PositionResponse F)) (es : List (EquityPosition F))
      → is_non_equity F p ≡ true
      → Match ps es
      → Match (p ∷ ps) es
  Match-skip p ps [] n m =
      ((λ e. let q = (is_non_equity-IsEquity p).1 e in absurd (ground arith)), m)
  Match-skip p ps (x ∷ xs) n m =
      inr ((λ e. let q = (is_non_equity-IsEquity p).1 e in absurd (ground arith)), m)

  equities-Match :
      (positions : List (PositionResponse F)) (entries : List (EquityPosition F))
      → equities F H positions ≡ ok entries
      → Match positions entries
  unfolding equities
  equities-Match [] [] e = tt
  equities-Match [] (x ∷ xs) e = cc
  equities-Match (p ∷ ps) entries e = elim (Bool-cases (is_non_equity F p)) [
    | inl h ↦ Match-skip p ps entries h (equities-Match ps entries (ground arith))
    | inr h ↦ elim (Result-cases (equity_of F H p)) [
      | inr (failure, q) ↦ ground arith
      | inl (equity, q) ↦ elim (Result-cases (equities F H ps)) [
        | inr (failure, r) ↦ ground arith
        | inl (others, r) ↦
            let whole : entries ≡ equity ∷ others = ground arith in
            subst (Match (p ∷ ps)) (sym whole)
              (inl (equity_of-IsEntryOf p equity h q, equities-Match ps others r))
      ]
    ]
  ]

  -- The amount that the USDC position has in all, on the grid of six decimals; or zero, without one.
  abbrev pub IsUsdc : Option (PositionResponse F) → F.Float → Type 0
  IsUsdc none amount = amount ≡ F.no_usdc
  IsUsdc (some p) amount =
      (total : F.Float) × (p.total_quantity ≡ some total)
      × (floor_to_6_decimals F H total ≡ ok amount)

  usdc_of-IsUsdc :
      (p : Option (PositionResponse F)) (amount : F.Float)
      → usdc_of F H p ≡ ok amount
      → IsUsdc p amount
  unfolding usdc_of try_from or_else
  usdc_of-IsUsdc none amount u = ground arith
  usdc_of-IsUsdc (some p) amount u = elim (Option-cases p.total_quantity) [
    | inl t ↦ ground arith
    | inr (total, t) ↦ (total, t, ground arith)
  ]

  get_account_funds_lem :
      (details : Result (AccountDetailsResponse F) (AlpacaBrokerApiError H))
      (funds : AccountFunds F)
      → get_account_funds F H details ≡ ok funds
      → funds.buying_power ≡ funds.balance
  unfolding get_account_funds
  get_account_funds_lem details funds e = ground arith

  abbrev pub IsInventory : List (PositionResponse F) → Inventory F → Type 0
  IsInventory positions inventory =
      Match positions inventory.positions
      × ((amount : F.Float) × (inventory.alpaca_usdc ≡ some amount)
          × IsUsdc (find (λ p. same_bytes p.symbol usdcusd) positions) amount)
      × (inventory.cash_buying_power_cents ≡ some inventory.usd_balance_cents)

  -- An inventory has one entry for each equity position of the answer, in their order, and no other, with
  -- that position's symbol, tradeable quantity and value: a position is an equity if its symbol is not
  -- USDCUSD, and its class is `us_equity` in any case of letters or, if it has none, its exchange is not
  -- CRYPTO. The inventory also has the USDC that Alpaca holds in all, locked or not, and its cash as its
  -- buying power.
  pub fetch_inventory-IsInventory :
      (positions : List (PositionResponse F))
      (details : Result (AccountDetailsResponse F) (AlpacaBrokerApiError H))
      (inventory : Inventory F)
      → fetch_inventory F H (ok positions) details ≡ ok inventory
      → IsInventory positions inventory
  unfolding fetch_inventory alpaca_usdc_balance
  fetch_inventory-IsInventory positions details inventory e =
      elim (Result-cases (get_account_funds F H details)) [
        | inr (failure, g) ↦ ground arith
        | inl (funds, g) ↦ elim (Result-cases (alpaca_usdc_balance F H positions)) [
          | inr (failure, b) ↦ ground arith
          | inl (usdc, b) ↦ elim (Result-cases (equities F H positions)) [
            | inr (failure, q) ↦ ground arith
            | inl (entries, q) ↦
                let listed : inventory.positions ≡ entries = ground arith in
                let held : inventory.alpaca_usdc ≡ some usdc = ground arith in
                (
                  subst (Match positions) (sym listed) (equities-Match positions entries q),
                  (
                    usdc,
                    held,
                    usdc_of-IsUsdc (find (λ p. same_bytes p.symbol usdcusd) positions) usdc b,
                  ),
                  ground (arith, get_account_funds_lem details funds g),
                )
          ]
        ]
      ]

  -- The price that the answered position gives.
  abbrev pub IsMarkOf :
      List ℕ → F.Float → Result (PositionResponse F) (AlpacaBrokerApiError H) → Type 0
  IsMarkOf symbol mark (err _) = ⊥
  IsMarkOf symbol mark (ok p) =
      (F.symbol p.symbol ≡ some symbol)
      × (is_non_equity F p ≡ false)
      × (p.current_price ≡ some mark)
      × (F.positivity mark ≡ positive)

  -- A mark is the positive current price of the answered position, which is an equity and that of the
  -- symbol that was asked for.
  pub fetch_position_mark-IsMarkOf :
      (symbol : List ℕ) (answer : Result (PositionResponse F) (AlpacaBrokerApiError H))
      (mark : F.Float)
      → fetch_position_mark F H symbol answer ≡ ok (some mark)
      → IsMarkOf symbol mark answer
  unfolding fetch_position_mark mark_of or_else classify_position_mark
  fetch_position_mark-IsMarkOf symbol (err e) mark h = ground arith
  fetch_position_mark-IsMarkOf symbol (ok p) mark h = elim (Option-cases (F.symbol p.symbol)) [
    | inl n ↦ ground arith
    | inr (returned, n) ↦ ground (arith, same_bytes-eq returned symbol)
  ]
