-- ===== src/Client/Tests.antt =====
-- Examples for failures over the gateway: a placement that was written, a symbol without a trade, and
-- a throttled placement.
use st0x_alpaca.Prelude.{ℕ, ◌≡◌, ◌↔◌, ◌≤◌, refl, arith, true, [], ◌∷◌, some, none}
use st0x_alpaca.Catalog.Operation.{mutates, orders_place_market, market_latest_trade}
use st0x_alpaca.Errors.Sample.{http}
use st0x_alpaca.Errors.Broker.{PlacementError}
use st0x_alpaca.Errors.Broker
use st0x_alpaca.Errors.MarketData
use st0x_alpaca.Client.Family.{
  FailedCall, trade_read, placement_call, placement_hop, direct, over_hop, any_permanence,
  any_backpressure,
}
use st0x_alpaca.Client.Laws.{IsUnknown, SaysUnknown, placement_over_hop}
use st0x_alpaca.Client.Reads.{any_permanence-over_hop}
use st0x_alpaca.Client.Holds.{any_backpressure-over_hop}

abbrev lost : PlacementError http
lost = record { written = true; error = Broker.http_client 2 }

placement_over_hop_example :
    (IsUnknown (placement_hop http orders_place_market (98 ∷ []) lost) ↔ (true ≡ true))
    × ((true ≡ true)
        → SaysUnknown orders_place_market (placement_hop http orders_place_market (98 ∷ []) lost))
unfolding mutates
placement_over_hop_example = placement_over_hop http lost orders_place_market (98 ∷ []) refl

-- A symbol without a trade.
abbrev missing : FailedCall http
missing = trade_read (Broker.latest_trade (MarketData.api_error 404 none))

any_permanence-over_hop_example :
    any_permanence http (over_hop http market_latest_trade [] missing)
    ≡ any_permanence http (direct http missing)
unfolding mutates
any_permanence-over_hop_example =
    any_permanence-over_hop http missing market_latest_trade [] refl tt

abbrev throttled : FailedCall http
throttled =
    placement_call (record { written = true; error = Broker.api_error 429 [] (some 1_500_000_000) })

any_backpressure-over_hop_example :
    (longer : ℕ) × (any_backpressure http (over_hop http orders_place_market [] throttled)
      ≡ some (record { retry_after = some longer }))
    × (1_500_000_000 ≤ longer)
unfolding Broker.backpressure
any_backpressure-over_hop_example =
    any_backpressure-over_hop http throttled orders_place_market [] 1_500_000_000 (omega arith) refl
