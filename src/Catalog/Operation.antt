-- ===== src/Catalog/Operation.antt =====
-- crates/gateway-api/src/ops.rs: the operations, which of them change state, and their deadlines. A
-- `Duration` is a number of seconds here; `ALL` is the list `all_operations`.
use st0x_alpaca.Prelude.{ℕ, Bool, true, false, ◌||◌, List, [], ◌∷◌, if◌then◌else◌}

pub data Method : Type 0 where
  get post : Method

pub data Operation : Type 0 where
  account_funds account_withdrawable_cash account_inventory account_position_mark : Operation
  activities_list market_is_open market_session market_session_status : Operation
  market_latest_trade market_latest_quote market_latest_overnight_quote assets_get : Operation
  assets_counter_trade_shares orders_place_market orders_place_limit : Operation
  orders_place_exact_limit orders_get orders_find orders_recover orders_cancel : Operation
  conversions_submit conversions_get conversions_find journals_create : Operation
  wallet_withdraw wallet_transfer wallet_transfers wallet_find_deposit : Operation
  wallet_deposit_address wallet_whitelist wallet_whitelist_create : Operation
  wallet_whitelist_remove wallet_whitelist_patch_travel_rule tokenization_mint : Operation
  tokenization_requests tokenization_request tokenization_find_mint : Operation
  tokenization_find_redemption issuer_mint_callback issuer_redeem issuer_request : Operation
  corporate_actions_stream : Operation

abbrev pub all_operations : List Operation
all_operations =
    account_funds ∷ account_withdrawable_cash ∷ account_inventory ∷ account_position_mark
    ∷ activities_list ∷ market_is_open ∷ market_session ∷ market_session_status
    ∷ market_latest_trade ∷ market_latest_quote ∷ market_latest_overnight_quote ∷ assets_get
    ∷ assets_counter_trade_shares ∷ orders_place_market ∷ orders_place_limit
    ∷ orders_place_exact_limit ∷ orders_get ∷ orders_find ∷ orders_recover ∷ orders_cancel
    ∷ conversions_submit ∷ conversions_get ∷ conversions_find ∷ journals_create ∷ wallet_withdraw
    ∷ wallet_transfer ∷ wallet_transfers ∷ wallet_find_deposit ∷ wallet_deposit_address
    ∷ wallet_whitelist ∷ wallet_whitelist_create ∷ wallet_whitelist_remove
    ∷ wallet_whitelist_patch_travel_rule ∷ tokenization_mint ∷ tokenization_requests
    ∷ tokenization_request ∷ tokenization_find_mint ∷ tokenization_find_redemption
    ∷ issuer_mint_callback ∷ issuer_redeem ∷ issuer_request ∷ corporate_actions_stream ∷ []

unfoldable pub mutates : Operation → Bool
mutates orders_place_market = true
mutates orders_place_limit = true
mutates orders_place_exact_limit = true
mutates orders_cancel = true
mutates conversions_submit = true
mutates journals_create = true
mutates wallet_withdraw = true
mutates wallet_whitelist_create = true
mutates wallet_whitelist_remove = true
mutates wallet_whitelist_patch_travel_rule = true
mutates tokenization_mint = true
mutates issuer_mint_callback = true
mutates issuer_redeem = true
mutates _ = false

reads_with_body : Operation → Bool
reads_with_body orders_recover = true
reads_with_body assets_counter_trade_shares = true
reads_with_body _ = false

unfoldable pub uses_body : Operation → Bool
unfolding mutates reads_with_body
uses_body o = mutates o || reads_with_body o

unfoldable pub method : Operation → Method
unfolding uses_body
method o = if uses_body o then post else get

unfoldable pub resendable_with_same_key : Operation → Bool
resendable_with_same_key orders_place_market = true
resendable_with_same_key orders_place_limit = true
resendable_with_same_key orders_place_exact_limit = true
resendable_with_same_key orders_cancel = true
resendable_with_same_key wallet_whitelist_remove = true
resendable_with_same_key wallet_whitelist_patch_travel_rule = true
resendable_with_same_key tokenization_mint = true
resendable_with_same_key _ = false

abbrev single_call : ℕ
single_call = 45

abbrev order_placement : ℕ
order_placement = 125

abbrev multi_call : ℕ
multi_call = 90

abbrev activity_pages : ℕ
activity_pages = 120

abbrev withdrawal_answer : ℕ
withdrawal_answer = 60

abbrev issuer_call : ℕ
issuer_call = 270

unfoldable pub deadline : Operation → ℕ
deadline orders_place_market = order_placement
deadline orders_place_limit = order_placement
deadline orders_place_exact_limit = order_placement
deadline orders_recover = multi_call
deadline wallet_whitelist_remove = multi_call
deadline wallet_whitelist_patch_travel_rule = multi_call
deadline activities_list = activity_pages
deadline wallet_withdraw = withdrawal_answer
deadline issuer_mint_callback = issuer_call
deadline issuer_redeem = issuer_call
deadline issuer_request = issuer_call
deadline _ = single_call
