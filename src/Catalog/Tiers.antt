-- ===== src/Catalog/Tiers.antt =====
-- crates/gateway-api/src/ops.rs: the capability matrix, which tier may call which operation.
use st0x_alpaca.Prelude.{Bool, List, [], ◌∷◌, any}
use st0x_alpaca.Catalog.Access.{Tier, bot, read, write, Profile, t0, s01, tier_eq}
use st0x_alpaca.Catalog.Operation.{
  Operation, account_funds, account_withdrawable_cash, account_inventory, account_position_mark,
  activities_list, market_is_open, market_session, market_session_status, market_latest_trade,
  market_latest_quote, market_latest_overnight_quote, assets_get, assets_counter_trade_shares,
  orders_place_market, orders_place_limit, orders_place_exact_limit, orders_get, orders_find,
  orders_recover, orders_cancel, conversions_submit, conversions_get, conversions_find,
  journals_create, wallet_withdraw, wallet_transfer, wallet_transfers, wallet_find_deposit,
  wallet_deposit_address, wallet_whitelist, wallet_whitelist_create, wallet_whitelist_remove,
  wallet_whitelist_patch_travel_rule, tokenization_mint, tokenization_requests,
  tokenization_request, tokenization_find_mint, tokenization_find_redemption, issuer_mint_callback,
  issuer_redeem, issuer_request, corporate_actions_stream,
}

abbrev bot_read_write : List Tier
bot_read_write = bot ∷ read ∷ write ∷ []

abbrev read_write : List Tier
read_write = read ∷ write ∷ []

abbrev bot_write : List Tier
bot_write = bot ∷ write ∷ []

abbrev only_bot : List Tier
only_bot = bot ∷ []

abbrev only_write : List Tier
only_write = write ∷ []

abbrev no_tier : List Tier
no_tier = []

unfoldable pub t0_tiers : Operation → List Tier
t0_tiers account_funds = bot_read_write
t0_tiers account_withdrawable_cash = bot_read_write
t0_tiers account_inventory = bot_read_write
t0_tiers account_position_mark = bot_read_write
t0_tiers activities_list = bot_read_write
t0_tiers market_is_open = bot_read_write
t0_tiers market_session = bot_read_write
t0_tiers market_session_status = bot_read_write
t0_tiers market_latest_trade = bot_read_write
t0_tiers market_latest_quote = bot_read_write
t0_tiers assets_get = bot_read_write
t0_tiers orders_get = bot_read_write
t0_tiers orders_find = bot_read_write
t0_tiers conversions_get = bot_read_write
t0_tiers conversions_find = bot_read_write
t0_tiers wallet_transfer = bot_read_write
t0_tiers wallet_transfers = bot_read_write
t0_tiers wallet_find_deposit = bot_read_write
t0_tiers wallet_deposit_address = bot_read_write
t0_tiers tokenization_requests = bot_read_write
t0_tiers tokenization_request = bot_read_write
t0_tiers tokenization_find_mint = bot_read_write
t0_tiers tokenization_find_redemption = bot_read_write
t0_tiers market_latest_overnight_quote = read_write
t0_tiers wallet_whitelist = read_write
t0_tiers orders_place_market = bot_write
t0_tiers orders_cancel = bot_write
t0_tiers conversions_submit = bot_write
t0_tiers wallet_withdraw = bot_write
t0_tiers tokenization_mint = bot_write
t0_tiers assets_counter_trade_shares = only_bot
t0_tiers orders_place_limit = only_bot
t0_tiers orders_recover = only_bot
t0_tiers orders_place_exact_limit = only_write
t0_tiers journals_create = only_write
t0_tiers wallet_whitelist_create = only_write
t0_tiers wallet_whitelist_remove = only_write
t0_tiers wallet_whitelist_patch_travel_rule = only_write
t0_tiers issuer_mint_callback = no_tier
t0_tiers issuer_redeem = no_tier
t0_tiers issuer_request = no_tier
t0_tiers corporate_actions_stream = no_tier

-- `[Tier::Bot, humans @ ..] | humans`: the list without a leading bot tier.
unfoldable pub humans : List Tier → List Tier
humans (bot ∷ rest) = rest
humans tiers = tiers

unfoldable pub tiers : Operation → Profile → List Tier
unfolding t0_tiers humans
tiers o t0 = t0_tiers o
tiers issuer_mint_callback s01 = only_bot
tiers issuer_redeem s01 = only_bot
tiers corporate_actions_stream s01 = only_bot
tiers issuer_request s01 = bot_read_write
tiers o s01 = humans (t0_tiers o)

unfoldable pub allows : Operation → Profile → Tier → Bool
unfolding tiers
allows o p tier = any (tier_eq tier) (tiers o p)
