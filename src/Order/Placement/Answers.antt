-- ===== src/Order/Placement/Answers.antt =====
-- src/broker/order.rs: what the placements share, from the truncation of the shares to the answers of
-- the request.
use st0x_alpaca.Prelude.{
  ℕ, Bool, true, false, List, Option, none, some, if◌then◌else◌, Result, ok, err, ◌>>=◌,
}
use st0x_alpaca.Errors.Http.{Http}
use st0x_alpaca.Errors.Broker.{
  AlpacaBrokerApiError, PlacementError, is_duplicate_client_order_id, may_have_reached_alpaca,
  duplicate_order_not_found, incomplete_order, below_precision, not_positive,
  not_positive_limit_price, float_conversion,
}
use st0x_alpaca.Order.Placement.{
  Direction, ClientOrderId, Floats, truncate_to_decimal_places, alpaca_max_decimal_places,
  OrderResponse, OrderPlacement, Calls,
}

-- `Option::or`.
unfoldable pub or : {A : Type 0} → Option A → Option A → Option A
or none b = b
or (some a) b = some a

-- `Option::unwrap_or`.
unfoldable pub unwrap_or : {A : Type 0} → Option A → A → A
unwrap_or none b = b
unwrap_or (some a) b = a

module _ {H : Http} where
  unfoldable pub unwritten : AlpacaBrokerApiError H → PlacementError H
  unwritten error = record { written = false; error = error }

  unfoldable pub maybe_written :
      {A : Type 0} → Result A (AlpacaBrokerApiError H) → Result A (PlacementError H)
  maybe_written (ok a) = ok a
  maybe_written (err error) = err (record { written = true; error = error })

  unfoldable pub order_post_failure : AlpacaBrokerApiError H → PlacementError H
  unfolding may_have_reached_alpaca
  order_post_failure error = record { written = may_have_reached_alpaca error; error = error }

module _ (H : Http) (F : Floats) where
  truncated_shares : Option (Option F.Float) → Result F.Float (AlpacaBrokerApiError H)
  truncated_shares none = err float_conversion
  truncated_shares (some none) = err below_precision
  truncated_shares (some (some shares)) = if F.positive shares then ok shares else err not_positive

  unfoldable pub truncate_shares_to_alpaca_precision :
      F.Float → Result F.Float (AlpacaBrokerApiError H)
  unfolding truncated_shares
  truncate_shares_to_alpaca_precision shares =
      truncated_shares (truncate_to_decimal_places F shares alpaca_max_decimal_places)

  unfoldable pub parse_limit_price :
      Option F.Float → Result (Option F.Float) (AlpacaBrokerApiError H)
  parse_limit_price none = ok none
  parse_limit_price (some price) =
      if F.positive price then ok (some price) else err not_positive_limit_price

  module _ (C : Calls F H) where
    found_at : Option ℕ → Result ℕ (AlpacaBrokerApiError H)
    found_at none = err incomplete_order
    found_at (some placed_at) = ok placed_at

    unfoldable pub broker_order_placed_at :
        ℕ → Option ℕ → Option ℕ → Result ℕ (AlpacaBrokerApiError H)
    unfolding or found_at
    broker_order_placed_at order_id created_at submitted_at = elim (or created_at submitted_at) [
      | some placed_at ↦ ok placed_at
      | none ↦
          C.get_order order_id
          >>= (λ r. found_at (or (or r.created_at r.submitted_at) r.updated_at))
    ]

    unfoldable pub find_duplicate_order :
        ClientOrderId → Result (OrderResponse F) (AlpacaBrokerApiError H)
    find_duplicate_order client_order_id =
        C.get_order_by_client_order_id client_order_id
        >>= (λ found. elim found [ none ↦ err duplicate_order_not_found | some r ↦ ok r ])

    unfoldable pub placed_at_of : OrderResponse F → Result ℕ (PlacementError H)
    unfolding maybe_written broker_order_placed_at
    placed_at_of r = maybe_written (broker_order_placed_at r.id r.created_at r.submitted_at)

    -- What a placement tells of the order that Alpaca made, or already held.
    unfoldable pub placement_of :
        List ℕ → Direction → ℕ → F.Float → Bool → Option F.Float → ℕ → OrderPlacement F
    placement_of symbol direction order_id shares extended_hours limit_price placed_at = record {
      order_id = order_id;
      symbol = symbol;
      shares = shares;
      direction = direction;
      placed_at = placed_at;
      extended_hours = extended_hours;
      limit_price = limit_price;
    }

    unfoldable pub unwritten_err :
        Result F.Float (AlpacaBrokerApiError H) → Result F.Float (PlacementError H)
    unfolding unwritten
    unwritten_err (ok shares) = ok shares
    unwritten_err (err error) = err (unwritten error)

    -- The answers of the request, for a fresh order and for one that Alpaca already holds.
    unfoldable pub answered_post :
        ClientOrderId
        → (OrderResponse F → Result (OrderPlacement F) (PlacementError H))
        → (OrderResponse F → Result (OrderPlacement F) (PlacementError H))
        → Result (OrderResponse F) (AlpacaBrokerApiError H)
        → Result (OrderPlacement F) (PlacementError H)
    unfolding find_duplicate_order maybe_written order_post_failure is_duplicate_client_order_id
    answered_post key fresh adopt (ok r) = fresh r
    answered_post key fresh adopt (err error) =
        if is_duplicate_client_order_id error
        then maybe_written (find_duplicate_order key) >>= adopt
        else err (order_post_failure error)
