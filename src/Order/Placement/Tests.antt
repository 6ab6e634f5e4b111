-- ===== src/Order/Placement/Tests.antt =====
-- Examples for placements: a request that Alpaca refuses, and one whose key it holds an order under.
use st0x_alpaca.Prelude.{
  contains, List, Option, ℕ, ◌≡◌, ◌⊎◌, ◌==◌, refl, true, false, [], none, some, ltb, ok, err, inl,
  codes,
}
use st0x_alpaca.Catalog.Operation.{mutates, orders_place_market}
use st0x_alpaca.Errors.Sample.{http}
use st0x_alpaca.Errors.Broker.{
  AlpacaBrokerApiError, PlacementError, api_error, is_duplicate_client_order_id,
  may_have_reached_alpaca,
}
use st0x_alpaca.Client.Laws.{SaysUnknown, IsUnknown}
use st0x_alpaca.Client.Family.{placement_hop}
use st0x_alpaca.Order.Status.{BrokerOrderStatus, OrderStatus, classify_broker_status}
use st0x_alpaca.Order.Placement.{
  Floats, truncate_to_decimal_places, OrderResponse, OrderRequest, OrderSide, Direction,
  TimeInForce, automated, MarketOrder, OrderPlacement, Calls,
}
use st0x_alpaca.Order.Placement.Answers.{
  or, unwrap_or, maybe_written, unwritten_err, truncate_shares_to_alpaca_precision, placed_at_of,
  placement_of, answered_post, find_duplicate_order, parse_limit_price, broker_order_placed_at,
  order_post_failure,
}
use st0x_alpaca.Order.Placement.Place.{place_market_order}
use st0x_alpaca.Order.Placement.Read.{
  OrderUpdate, get_order_status, recover_order_by_client_id, status_time,
}
use st0x_alpaca.Order.Placement.Laws.{AnyOrder, place, shares_of, TellsOfShares, place_held}
use st0x_alpaca.Order.Placement.Adoption.{place_over_hop}
use st0x_alpaca.Order.Placement.Wire.{NeverReached, place-NeverReached}
use st0x_alpaca.Transport.Sample.{codec, scope, answering}
use st0x_alpaca.Transport.Broker.{
  post, call, authorized, received, handle_response, read_body, parse_api_error,
}
use st0x_alpaca.Transport.{Exchange, send, held_back, is_held}
use st0x_alpaca.Order.Placement.Recovery.{get_order_status_time, IsReadOf}

-- Floats that are whole numbers.
abbrev floats : Floats
floats = record {
  Float = ℕ;
  to_fixed_decimal_lossy = λ x places. some (x, true);
  from_fixed_decimal = λ fixed places. some fixed;
  is_zero = λ x. some (x == 0);
  positive = λ x. ltb 0 x;
}

abbrev held : OrderResponse floats
held = record {
  id = 9;
  symbol = codes "AAPL";
  quantity = 3;
  filled_quantity = some 3;
  side = OrderSide.buy;
  status = BrokerOrderStatus.filled;
  filled_average_price = some 200;
  extended_hours = some true;
  limit_price = some 201;
  created_at = some 50;
  submitted_at = none;
  updated_at = some 70;
  filled_at = none;
  canceled_at = none;
  failed_at = none;
}

abbrev duplicate : AlpacaBrokerApiError http
duplicate = api_error 422 (codes "client_order_id must be unique") none

abbrev holding : Calls floats http
holding = record {
  place_order = λ request. err duplicate;
  get_order = λ id. ok held;
  get_order_by_client_order_id = λ key. ok (some held);
}

abbrev refusing : Calls floats http
refusing = record holding { place_order = λ request. err (api_error 403 [] none) }

abbrev order : MarketOrder floats
order = record {
  symbol = codes "AAPL";
  shares = 5;
  direction = Direction.buy;
  client_order_id = automated 8;
}

abbrev any_order : AnyOrder http floats holding
any_order = inl (order, TimeInForce.day)

abbrev any_refused : AnyOrder http floats refusing
any_refused = inl (order, TimeInForce.day)

abbrev refused : PlacementError http
refused = record { written = false; error = api_error 403 [] none }

abbrev adopted : OrderPlacement floats
adopted = record {
  order_id = 9;
  symbol = codes "AAPL";
  shares = 3;
  direction = Direction.buy;
  placed_at = 50;
  extended_hours = true;
  limit_price = some 201;
}

refuses : place http floats refusing any_refused ≡ err refused
unfolding place_market_order unwritten_err truncate_shares_to_alpaca_precision
    truncate_to_decimal_places answered_post order_post_failure is_duplicate_client_order_id
    may_have_reached_alpaca
refuses = refl

adopts : place http floats holding any_order ≡ ok adopted
unfolding place_market_order unwritten_err truncate_shares_to_alpaca_precision
    truncate_to_decimal_places answered_post is_duplicate_client_order_id contains
    find_duplicate_order maybe_written parse_limit_price placed_at_of broker_order_placed_at or
    unwrap_or placement_of
adopts = refl

-- An HTTP client whose orders are refused, with no order that can be read.
abbrev forbidden : OrderRequest floats → Exchange http
forbidden request = answering 403

abbrev unreadable : List ℕ → Option (OrderResponse floats)
unreadable bytes = none

place-NeverReached_example :
    NeverReached http floats refusing codec unreadable scope forbidden any_refused
      (shares_of http floats refusing any_refused)
unfolding post call authorized received handle_response read_body parse_api_error send held_back
    is_held
place-NeverReached_example =
    place-NeverReached http floats refusing codec unreadable scope forbidden any_refused refused
      (λ q. refl) (λ q. (refl, tt)) refuses refl

place_held_example :
    TellsOfShares http floats holding any_order adopted (shares_of http floats holding any_order)
place_held_example = place_held http floats holding any_order adopted adopts

place_over_hop_example :
    SaysUnknown orders_place_market (placement_hop http orders_place_market [] refused)
    ⊎ ((¬ IsUnknown (placement_hop http orders_place_market [] refused))
        × NeverReached http floats refusing codec unreadable scope forbidden any_refused
            (shares_of http floats refusing any_refused))
unfolding mutates post call authorized received handle_response read_body parse_api_error send
    held_back is_held
place_over_hop_example =
    place_over_hop http floats refusing codec unreadable scope forbidden any_refused refused
      orders_place_market [] refl (λ q. refl) (λ q. (refl, tt)) refuses

abbrev update : OrderUpdate floats
update = record {
  order_id = codes "9";
  symbol = codes "AAPL";
  shares = 3;
  direction = Direction.buy;
  status = OrderStatus.filled;
  updated_at = 70;
  price = some 200;
  shares_filled = some 3;
  failure_terminality = none;
}

get_order_status_time_example : IsReadOf http floats holding update (some 9)
unfolding get_order_status status_time classify_broker_status
get_order_status_time_example =
    get_order_status_time http floats holding (λ text. some 9) 1_000 (codes "9") update refl

recovers : recover_order_by_client_id http floats holding order ≡ ok (some adopted)
unfolding recover_order_by_client_id parse_limit_price broker_order_placed_at or placement_of
recovers = refl
