-- ===== src/Order/Placement/Laws.antt =====
-- What a placement of src/broker/order.rs tells of the order at Alpaca, for market and limit orders.
use st0x_alpaca.Prelude.{
  ◌≡◌, ◌⊎◌, inl, inr, Bool, true, false, Option, some, arith, Result, ok, err,
}
use st0x_alpaca.Errors.Http.{Http}
use st0x_alpaca.Errors.Broker.{
  AlpacaBrokerApiError, PlacementError, is_duplicate_client_order_id, may_have_reached_alpaca,
}
use st0x_alpaca.Order.Placement.{
  Floats, OrderResponse, OrderRequest, MarketOrder, AlpacaLimitOrder, TimeInForce, ClientOrderId,
  OrderPlacement, Calls,
}
use st0x_alpaca.Order.Placement.Answers.{
  unwrap_or, maybe_written, unwritten_err, truncate_shares_to_alpaca_precision, placed_at_of,
  placement_of, answered_post, order_post_failure, unwritten, find_duplicate_order,
}
use st0x_alpaca.Order.Placement.Place.{
  place_market_order, place_limit_order, market_request, limit_request,
}

module _ (H : Http) (F : Floats) (C : Calls F H) where
  abbrev pub AnyOrder : Type 0
  AnyOrder = (MarketOrder F × TimeInForce) ⊎ AlpacaLimitOrder F

  abbrev pub place : AnyOrder → Result (OrderPlacement F) (PlacementError H)
  place (inl (order, time_in_force)) = place_market_order H F C order time_in_force
  place (inr order) = place_limit_order H F C order

  -- The shares that are asked for, the request for them, and its key.
  abbrev pub shares_of : AnyOrder → Result F.Float (AlpacaBrokerApiError H)
  shares_of (inl (order, _)) = truncate_shares_to_alpaca_precision H F order.shares
  shares_of (inr order) = truncate_shares_to_alpaca_precision H F order.shares

  abbrev pub request_of : AnyOrder → F.Float → OrderRequest F
  request_of (inl (order, time_in_force)) shares = market_request H F C order shares time_in_force
  request_of (inr order) shares = limit_request H F C order shares

  abbrev pub key_of : AnyOrder → ClientOrderId
  key_of (inl (order, _)) = order.client_order_id
  key_of (inr order) = order.client_order_id

  -- The request failed with the error, which does not count as written and refuses no duplicate.
  abbrev pub IsNotTaken :
      AlpacaBrokerApiError H → Result (OrderResponse F) (AlpacaBrokerApiError H) → Type 0
  IsNotTaken error (ok _) = ⊥
  IsNotTaken error (err refused) =
      (refused ≡ error)
      × (may_have_reached_alpaca refused ≡ false)
      × (is_duplicate_client_order_id refused ≡ false)

  -- No request was made, or it failed so.
  abbrev pub LeavesNone :
      AnyOrder → AlpacaBrokerApiError H → Result F.Float (AlpacaBrokerApiError H) → Type 0
  LeavesNone order error (err refused) = refused ≡ error
  LeavesNone order error (ok shares) = IsNotTaken error (C.place_order (request_of order shares))

  -- A placement that fails as unwritten failed before the request, or with the request's error, which is
  -- one that does not count as written, and no refusal of the key as a duplicate.
  pub place_unwritten :
      (order : AnyOrder) (failure : PlacementError H)
      → place order ≡ err failure
      → failure.written ≡ false
      → LeavesNone order failure.error (shares_of order)
  unfolding place_market_order place_limit_order unwritten_err answered_post maybe_written
      order_post_failure unwritten placed_at_of find_duplicate_order
  place_unwritten (inl (order, t)) failure e w = ground arith
  place_unwritten (inr order) failure e w = ground arith

  -- Whether an extended hours order was asked for.
  abbrev pub asks_extended : AnyOrder → Bool
  asks_extended (inl _) = false
  asks_extended (inr order) = order.extended_hours

  -- The placement tells of the order that the lookup of the key found, by that order's terms.
  abbrev pub TellsOfHeld :
      AnyOrder
      → OrderPlacement F
      → Result (Option (OrderResponse F)) (AlpacaBrokerApiError H)
      → Type 0
  TellsOfHeld order p (ok (some r)) =
      (p.order_id ≡ r.id)
      × (p.shares ≡ r.quantity)
      × (p.extended_hours ≡ unwrap_or r.extended_hours (asks_extended order))
  TellsOfHeld order p _ = ⊥

  -- The placement tells of the order of the answer, by the terms asked for; or the answer refuses the
  -- key as a duplicate.
  abbrev pub TellsOf :
      AnyOrder
      → OrderPlacement F
      → F.Float
      → Result (OrderResponse F) (AlpacaBrokerApiError H)
      → Type 0
  TellsOf order p shares (ok r) =
      (p.order_id ≡ r.id) × (p.shares ≡ shares) × (p.extended_hours ≡ asks_extended order)
  TellsOf order p shares (err error) =
      (is_duplicate_client_order_id error ≡ true)
      × TellsOfHeld order p (C.get_order_by_client_order_id (key_of order))

  abbrev pub TellsOfShares :
      AnyOrder → OrderPlacement F → Result F.Float (AlpacaBrokerApiError H) → Type 0
  TellsOfShares order p (ok shares) =
      TellsOf order p shares (C.place_order (request_of order shares))
  TellsOfShares order p (err error) = ⊥

  -- An order that a placement reports is one that Alpaca holds: the order of the answer, with the shares
  -- and session asked for, or, where the answer refuses the key as a duplicate, the order held under
  -- that key, with that order's shares and, where it names one, that order's session.
  pub place_held :
      (order : AnyOrder) (p : OrderPlacement F)
      → place order ≡ ok p
      → TellsOfShares order p (shares_of order)
  unfolding place_market_order place_limit_order unwritten_err answered_post maybe_written
      order_post_failure unwritten placed_at_of find_duplicate_order placement_of unwrap_or
  place_held (inl (order, t)) p e = ground arith
  place_held (inr order) p e = ground arith
