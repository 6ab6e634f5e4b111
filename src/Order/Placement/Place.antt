-- ===== src/Order/Placement/Place.antt =====
-- src/broker/order.rs: `place_market_order` and `place_limit_order`.
use st0x_alpaca.Prelude.{false, none, some, Result, ok, ◌>>=◌}
use st0x_alpaca.Errors.Http.{Http}
use st0x_alpaca.Errors.Broker.{PlacementError}
use st0x_alpaca.Order.Placement.{
  to_side, TimeInForce, day, Floats, OrderResponse, OrderRequest, MarketOrder, AlpacaLimitOrder,
  OrderPlacement, Calls,
}
use st0x_alpaca.Order.Placement.Answers.{
  or, unwrap_or, maybe_written, unwritten_err, truncate_shares_to_alpaca_precision,
  parse_limit_price, placed_at_of, placement_of, answered_post,
}

module _ (H : Http) (F : Floats) where
  module _ (C : Calls F H) where
    unfoldable pub market_request : MarketOrder F → F.Float → TimeInForce → OrderRequest F
    unfolding to_side
    market_request order shares time_in_force = record {
      symbol = order.symbol;
      quantity = shares;
      side = to_side order.direction;
      limit_price = none;
      time_in_force = time_in_force;
      extended_hours = false;
      client_order_id = order.client_order_id;
    }

    fresh_market :
        MarketOrder F → F.Float → OrderResponse F → Result (OrderPlacement F) (PlacementError H)
    unfolding placed_at_of placement_of
    fresh_market order shares r =
        placed_at_of H F C r
        >>= (λ at. ok (placement_of H F C order.symbol order.direction r.id shares false none at))

    adopted_market : MarketOrder F → OrderResponse F → Result (OrderPlacement F) (PlacementError H)
    unfolding placed_at_of placement_of maybe_written parse_limit_price unwrap_or
    adopted_market order r = maybe_written (parse_limit_price H F r.limit_price) >>= (λ limit_price.
        placed_at_of H F C r >>= (λ at. ok (
          placement_of H F C order.symbol order.direction r.id r.quantity
            (unwrap_or r.extended_hours false) limit_price at)))

    unfoldable pub place_market_order :
        MarketOrder F → TimeInForce → Result (OrderPlacement F) (PlacementError H)
    unfolding unwritten_err truncate_shares_to_alpaca_precision answered_post fresh_market
        adopted_market market_request
    place_market_order order time_in_force =
        unwritten_err H F C (truncate_shares_to_alpaca_precision H F order.shares) >>= (λ shares.
          answered_post H F C order.client_order_id (fresh_market order shares)
            (adopted_market order) (C.place_order (market_request order shares time_in_force)))

    unfoldable pub limit_request : AlpacaLimitOrder F → F.Float → OrderRequest F
    unfolding to_side
    limit_request order shares = record {
      symbol = order.symbol;
      quantity = shares;
      side = to_side order.direction;
      limit_price = some order.limit_price;
      time_in_force = day;
      extended_hours = order.extended_hours;
      client_order_id = order.client_order_id;
    }

    fresh_limit :
        AlpacaLimitOrder F
        → F.Float
        → OrderResponse F
        → Result (OrderPlacement F) (PlacementError H)
    unfolding placed_at_of placement_of
    fresh_limit order shares r = placed_at_of H F C r >>= (λ at. ok (
        placement_of H F C order.symbol order.direction r.id shares order.extended_hours
          (some order.limit_price) at))

    adopted_limit :
        AlpacaLimitOrder F → OrderResponse F → Result (OrderPlacement F) (PlacementError H)
    unfolding placed_at_of placement_of maybe_written parse_limit_price unwrap_or or
    adopted_limit order r = maybe_written (parse_limit_price H F r.limit_price) >>= (λ limit_price.
        placed_at_of H F C r >>= (λ at. ok (
          placement_of H F C order.symbol order.direction r.id r.quantity
            (unwrap_or r.extended_hours order.extended_hours)
            (or limit_price (some order.limit_price)) at)))

    unfoldable pub place_limit_order :
        AlpacaLimitOrder F → Result (OrderPlacement F) (PlacementError H)
    unfolding unwritten_err truncate_shares_to_alpaca_precision answered_post fresh_limit
        adopted_limit limit_request
    place_limit_order order =
        unwritten_err H F C (truncate_shares_to_alpaca_precision H F order.shares) >>= (λ shares.
          answered_post H F C order.client_order_id (fresh_limit order shares) (adopted_limit order)
            (C.place_order (limit_request order shares)))
