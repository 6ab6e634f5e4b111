-- ===== src/Order/Placement/Read.antt =====
-- src/broker/order.rs: `recover_order_by_client_id` and `get_order_status`. The reading of a UUID is
-- the UUID crate's, and the time of observation is an argument.
use st0x_alpaca.Prelude.{
  ℕ, ◌&&◌, Bool, true, false, List, Option, none, some, if◌then◌else◌, Result, ok, err, ◌>>=◌,
}
use st0x_alpaca.Errors.Http.{Http}
use st0x_alpaca.Errors.Broker.{AlpacaBrokerApiError, incomplete_order, invalid_order_id}
use st0x_alpaca.Order.Status.{
  OrderStatus, filled, cancelled, failed, OrderFailureTerminality, classify_broker_status,
}
use st0x_alpaca.Order.Placement.{
  Direction, to_direction, Floats, OrderResponse, MarketOrder, OrderPlacement, Calls,
}
use st0x_alpaca.Order.Placement.Answers.{
  or, unwrap_or, parse_limit_price, broker_order_placed_at, placement_of,
}

pub record OrderUpdate (F : Floats) : Type 0 where
  pub order_id : List ℕ
  pub symbol : List ℕ
  pub shares : F.Float
  pub direction : Direction
  pub status : OrderStatus
  pub updated_at : ℕ
  pub price : Option F.Float
  pub shares_filled : Option F.Float
  pub failure_terminality : Option OrderFailureTerminality

is_none : {A : Type 0} → Option A → Bool
is_none none = true
is_none (some _) = false

module _ (H : Http) (F : Floats) where
  terminal_broker_time : Option ℕ → Option ℕ → Result ℕ (AlpacaBrokerApiError H)
  terminal_broker_time (some time) updated_at = ok time
  terminal_broker_time none (some time) = ok time
  terminal_broker_time none none = err incomplete_order

  -- The broker's time of the status; `now` is when it was observed.
  unfoldable pub status_time : OrderStatus → ℕ → OrderResponse F → Result ℕ (AlpacaBrokerApiError H)
  unfolding terminal_broker_time unwrap_or or
  status_time filled now r = terminal_broker_time r.filled_at r.updated_at
  status_time cancelled now r = terminal_broker_time r.canceled_at r.updated_at
  status_time failed now r = ok (unwrap_or (or r.failed_at r.updated_at) now)
  status_time status now r = ok (unwrap_or r.updated_at now)

  updated :
      List ℕ → OrderResponse F → OrderStatus × Option OrderFailureTerminality → ℕ → OrderUpdate F
  unfolding to_direction
  updated order_id r (status, failure_terminality) time = record {
    order_id = order_id;
    symbol = r.symbol;
    shares = r.quantity;
    direction = to_direction r.side;
    status = status;
    updated_at = time;
    price = r.filled_average_price;
    shares_filled = r.filled_quantity;
    failure_terminality = failure_terminality;
  }

  module _ (C : Calls F H) where
    unfoldable pub get_order_status :
        (List ℕ → Option ℕ) → ℕ → List ℕ → Result (OrderUpdate F) (AlpacaBrokerApiError H)
    unfolding updated status_time classify_broker_status
    get_order_status parse_str now order_id = elim (parse_str order_id) [
      | none ↦ err invalid_order_id
      | some uuid ↦ C.get_order uuid >>= (λ r.
          status_time (classify_broker_status r.status).0 now r
          >>= (λ time. ok (updated order_id r (classify_broker_status r.status) time)))
    ]

    recovered :
        OrderResponse F
        → Bool
        → Option F.Float
        → Result (Option (OrderPlacement F)) (AlpacaBrokerApiError H)
    unfolding is_none broker_order_placed_at placement_of to_direction
    recovered r extended_hours limit_price =
        if extended_hours && is_none limit_price
        then err incomplete_order
        else broker_order_placed_at H F C r.id r.created_at r.submitted_at >>= (λ at. ok (
            some (
              placement_of H F C r.symbol (to_direction r.side) r.id r.quantity extended_hours
                limit_price at)))

    existing :
        Option (OrderResponse F) → Result (Option (OrderPlacement F)) (AlpacaBrokerApiError H)
    unfolding recovered parse_limit_price
    existing none = ok none
    existing (some r) = elim r.extended_hours [
      | none ↦ err incomplete_order
      | some extended_hours ↦ parse_limit_price H F r.limit_price >>= recovered r extended_hours
    ]

    unfoldable pub recover_order_by_client_id :
        MarketOrder F → Result (Option (OrderPlacement F)) (AlpacaBrokerApiError H)
    unfolding existing
    recover_order_by_client_id order =
        C.get_order_by_client_order_id order.client_order_id >>= existing
