-- ===== src/Order/Placement/Recovery.antt =====
-- What src/broker/order.rs reads back of an order: a recovered placement and a status.
use st0x_alpaca.Prelude.{ℕ, ◌≡◌, Bool, true, List, Option, none, some, arith, Result, ok, err}
use st0x_alpaca.Errors.Http.{Http}
use st0x_alpaca.Errors.Broker.{AlpacaBrokerApiError, PlacementError, is_duplicate_client_order_id}
use st0x_alpaca.Order.Status.{OrderStatus, filled, cancelled, classify_broker_status}
use st0x_alpaca.Order.Placement.{
  Floats, OrderResponse, MarketOrder, TimeInForce, OrderPlacement, Calls,
}
use st0x_alpaca.Order.Placement.Answers.{
  or, unwrap_or, maybe_written, unwritten_err, truncate_shares_to_alpaca_precision, placed_at_of,
  placement_of, answered_post, find_duplicate_order, parse_limit_price,
}
use st0x_alpaca.Order.Placement.Place.{place_market_order, market_request}
use st0x_alpaca.Order.Placement.Read.{
  OrderUpdate, status_time, get_order_status, recover_order_by_client_id,
}

module _ (H : Http) (F : Floats) (C : Calls F H) where
  -- The broker's time for the status of an update, where the status has to have one.
  abbrev pub IsTimedBy : OrderUpdate F → OrderStatus → OrderResponse F → Type 0
  IsTimedBy u filled r = or r.filled_at r.updated_at ≡ some u.updated_at
  IsTimedBy u cancelled r = or r.canceled_at r.updated_at ≡ some u.updated_at
  IsTimedBy u _ r = Unit {0}

  abbrev pub IsReadFrom : OrderUpdate F → Result (OrderResponse F) (AlpacaBrokerApiError H) → Type 0
  IsReadFrom u (err error) = ⊥
  IsReadFrom u (ok r) = (u.status ≡ (classify_broker_status r.status).0) × IsTimedBy u u.status r

  abbrev pub IsReadOf : OrderUpdate F → Option ℕ → Type 0
  IsReadOf u none = ⊥
  IsReadOf u (some uuid) = IsReadFrom u (C.get_order uuid)

  -- A status that is read comes from the order of the id, and a fill or a cancellation is dated by the
  -- broker, by its own time or the time of the last change, never by when it was observed.
  pub get_order_status_time :
      (parse_str : List ℕ → Option ℕ) (now : ℕ) (order_id : List ℕ) (u : OrderUpdate F)
      → get_order_status H F C parse_str now order_id ≡ ok u
      → IsReadOf u (parse_str order_id)
  unfolding get_order_status status_time or
  get_order_status_time parse_str now order_id u e = ground arith

  -- An extended hours order has a limit price.
  abbrev pub IsPriced : Bool → Option F.Float → Type 0
  IsPriced true none = ⊥
  IsPriced _ _ = Unit {0}

  -- A placement recovered by its key is never an extended hours order without a limit price.
  pub recover-IsPriced :
      (order : MarketOrder F) (p : OrderPlacement F)
      → recover_order_by_client_id H F C order ≡ ok (some p)
      → IsPriced p.extended_hours p.limit_price
  unfolding recover_order_by_client_id placement_of parse_limit_price
  recover-IsPriced order p e = ground arith

  -- The placement succeeds, with the same order, shares, time, session and price.
  abbrev pub IsSame : OrderPlacement F → Result (OrderPlacement F) (PlacementError H) → Type 0
  IsSame p (ok q) =
      (q.order_id ≡ p.order_id)
      × (q.shares ≡ p.shares)
      × (q.placed_at ≡ p.placed_at)
      × (q.extended_hours ≡ p.extended_hours)
      × (q.limit_price ≡ p.limit_price)
  IsSame p (err _) = ⊥

  -- Where the recovery of a market order finds one, and its request is refused as a duplicate, the
  -- placement succeeds with what the recovery found.
  pub recover_agrees :
      (order : MarketOrder F) (time_in_force : TimeInForce) (shares : F.Float)
      (error : AlpacaBrokerApiError H) (p : OrderPlacement F)
      → truncate_shares_to_alpaca_precision H F order.shares ≡ ok shares
      → C.place_order (market_request H F C order shares time_in_force) ≡ err error
      → is_duplicate_client_order_id error ≡ true
      → recover_order_by_client_id H F C order ≡ ok (some p)
      → IsSame p (place_market_order H F C order time_in_force)
  unfolding recover_order_by_client_id place_market_order unwritten_err answered_post maybe_written
      placed_at_of find_duplicate_order placement_of unwrap_or
  recover_agrees order time_in_force shares error p h post duplicate e = ground arith
