-- ===== src/Catalog/Name.antt =====
-- crates/gateway-api/src/ops.rs: catalog names, paths, and the lookup by name.
use st0x_alpaca.Prelude.{String, Option, str_eq, find}
use st0x_alpaca.Catalog.Operation.{
  Operation, all_operations, account_funds, account_withdrawable_cash, account_inventory,
  account_position_mark, activities_list, market_is_open, market_session, market_session_status,
  market_latest_trade, market_latest_quote, market_latest_overnight_quote, assets_get,
  assets_counter_trade_shares, orders_place_market, orders_place_limit, orders_place_exact_limit,
  orders_get, orders_find, orders_recover, orders_cancel, conversions_submit, conversions_get,
  conversions_find, journals_create, wallet_withdraw, wallet_transfer, wallet_transfers,
  wallet_find_deposit, wallet_deposit_address, wallet_whitelist, wallet_whitelist_create,
  wallet_whitelist_remove, wallet_whitelist_patch_travel_rule, tokenization_mint,
  tokenization_requests, tokenization_request, tokenization_find_mint, tokenization_find_redemption,
  issuer_mint_callback, issuer_redeem, issuer_request, corporate_actions_stream,
}

unfoldable pub name : Operation → String
name account_funds = "account.funds"
name account_withdrawable_cash = "account.withdrawable_cash"
name account_inventory = "account.inventory"
name account_position_mark = "account.position_mark"
name activities_list = "activities.list"
name market_is_open = "market.is_open"
name market_session = "market.session"
name market_session_status = "market.session_status"
name market_latest_trade = "market.latest_trade"
name market_latest_quote = "market.latest_quote"
name market_latest_overnight_quote = "market.latest_overnight_quote"
name assets_get = "assets.get"
name assets_counter_trade_shares = "assets.counter_trade_shares"
name orders_place_market = "orders.place_market"
name orders_place_limit = "orders.place_limit"
name orders_place_exact_limit = "orders.place_exact_limit"
name orders_get = "orders.get"
name orders_find = "orders.find"
name orders_recover = "orders.recover"
name orders_cancel = "orders.cancel"
name conversions_submit = "conversions.submit"
name conversions_get = "conversions.get"
name conversions_find = "conversions.find"
name journals_create = "journals.create"
name wallet_withdraw = "wallet.withdraw"
name wallet_transfer = "wallet.transfer"
name wallet_transfers = "wallet.transfers"
name wallet_find_deposit = "wallet.find_deposit"
name wallet_deposit_address = "wallet.deposit_address"
name wallet_whitelist = "wallet.whitelist"
name wallet_whitelist_create = "wallet.whitelist_create"
name wallet_whitelist_remove = "wallet.whitelist_remove"
name wallet_whitelist_patch_travel_rule = "wallet.whitelist_patch_travel_rule"
name tokenization_mint = "tokenization.mint"
name tokenization_requests = "tokenization.requests"
name tokenization_request = "tokenization.request"
name tokenization_find_mint = "tokenization.find_mint"
name tokenization_find_redemption = "tokenization.find_redemption"
name issuer_mint_callback = "issuer.mint_callback"
name issuer_redeem = "issuer.redeem"
name issuer_request = "issuer.request"
name corporate_actions_stream = "corporate_actions.stream"

unfoldable pub path : Operation → String
path account_funds = "/account/funds"
path account_withdrawable_cash = "/account/withdrawable-cash"
path account_inventory = "/account/inventory"
path account_position_mark = "/account/positions/{symbol}/mark"
path activities_list = "/activities"
path market_is_open = "/market/open"
path market_session = "/market/session"
path market_session_status = "/market/session-status"
path market_latest_trade = "/market/stocks/{symbol}/latest-trade"
path market_latest_quote = "/market/stocks/{symbol}/latest-quote"
path market_latest_overnight_quote = "/market/stocks/{symbol}/latest-overnight-quote"
path assets_get = "/assets/{symbol}"
path assets_counter_trade_shares = "/assets/{symbol}/counter-trade-shares"
path orders_place_market = "/orders/market"
path orders_place_limit = "/orders/limit"
path orders_place_exact_limit = "/orders/exact-limit"
path orders_get = "/orders/{order_id}"
path orders_find = "/orders/by-client-order-id/{client_order_id}"
path orders_recover = "/orders/recover"
path orders_cancel = "/orders/{order_id}/cancel"
path conversions_submit = "/conversions"
path conversions_get = "/conversions/{order_id}"
path conversions_find = "/conversions/by-client-order-id/{client_order_id}"
path journals_create = "/journals"
path wallet_withdraw = "/wallet/withdrawals"
path wallet_transfer = "/wallet/transfers/{transfer_id}"
path wallet_transfers = "/wallet/transfers"
path wallet_find_deposit = "/wallet/deposits/by-tx/{tx_hash}"
path wallet_deposit_address = "/wallet/deposit-address"
path wallet_whitelist = "/wallet/whitelist"
path wallet_whitelist_create = "/wallet/whitelist/entries"
path wallet_whitelist_remove = "/wallet/whitelist/{address}/remove"
path wallet_whitelist_patch_travel_rule = "/wallet/whitelist/travel-rule"
path tokenization_mint = "/tokenization/mints"
path tokenization_requests = "/tokenization/requests"
path tokenization_request = "/tokenization/requests/{tokenization_request_id}"
path tokenization_find_mint = "/tokenization/mints/by-issuer-request-id/{issuer_request_id}"
path tokenization_find_redemption = "/tokenization/redemptions/by-tx/{tx_hash}"
path issuer_mint_callback = "/issuer/mint-callbacks"
path issuer_redeem = "/issuer/redemptions"
path issuer_request = "/issuer/requests/{tokenization_request_id}"
path corporate_actions_stream = "/corporate-actions/stream"

unfoldable pub from_name : String → Option Operation
unfolding name
from_name text = find (λ o. str_eq (name o) text) all_operations
