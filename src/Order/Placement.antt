-- ===== src/Order/Placement.antt =====
-- src/broker/order.rs: the placement of an order, the adoption of one that Alpaca already holds under
-- its key, its recovery, and the reading of its status; with src/broker/precision.rs.
--
-- The calls of the broker client are the interface `Calls`, the float crate's are `Floats`. Of an
-- error only its kind is kept; a symbol is a text, a UUID and an instant are numbers.
pub mod Answers
pub mod Place
pub mod Read
pub mod Laws
pub mod Adoption
pub mod Recovery
pub mod Wire
mod Tests
use st0x_alpaca.Prelude.{
  ℕ, ◌==◌, ◌&&◌, Bool, true, false, List, Option, none, some, if◌then◌else◌, Result, ok, err, ◌>>=◌,
}
use st0x_alpaca.Errors.Http.{Http}
use st0x_alpaca.Errors.Broker.{
  AlpacaBrokerApiError, PlacementError, is_duplicate_client_order_id, may_have_reached_alpaca,
  duplicate_order_not_found, incomplete_order, below_precision, not_positive,
  not_positive_limit_price, float_conversion,
}
use st0x_alpaca.Order.Status.{BrokerOrderStatus}

pub data OrderSide : Type 0 where
  buy sell : OrderSide

pub data Direction : Type 0 where
  buy sell : Direction

unfoldable pub to_side : Direction → OrderSide
to_side Direction.buy = OrderSide.buy
to_side Direction.sell = OrderSide.sell

unfoldable pub to_direction : OrderSide → Direction
to_direction OrderSide.buy = Direction.buy
to_direction OrderSide.sell = Direction.sell

pub data TimeInForce : Type 0 where
  day market_on_close : TimeInForce

pub data ClientOrderId : Type 0 where
  automated cli : ℕ → ClientOrderId

-- `none` where the float crate fails; `positive` is the test of `Positive::new`.
pub record Floats : Type 1 where
  pub Float : Type 0
  pub to_fixed_decimal_lossy : Float → ℕ → Option (ℕ × Bool)
  pub from_fixed_decimal : ℕ → ℕ → Option Float
  pub is_zero : Float → Option Bool
  pub positive : Float → Bool

abbrev pub alpaca_max_decimal_places : ℕ
alpaca_max_decimal_places = 9

module _ (F : Floats) where
  collapsed : ℕ → ℕ → Option Bool → Option (Option F.Float)
  collapsed fixed max_decimals none = none
  collapsed fixed max_decimals (some zero) =
      if (if zero then false else true) && fixed == 0
      then some none
      else elim (F.from_fixed_decimal fixed max_decimals) [ none ↦ none | some x ↦ some (some x) ]

  -- `none` is an error, `some none` a value that the limit would take to zero.
  unfoldable pub truncate_to_decimal_places : F.Float → ℕ → Option (Option F.Float)
  unfolding collapsed
  truncate_to_decimal_places value max_decimals =
      elim (F.to_fixed_decimal_lossy value max_decimals) [
        | none ↦ none
        | some (fixed, lossless) ↦
            if lossless then some (some value) else collapsed fixed max_decimals (F.is_zero value)
      ]

  pub record OrderResponse : Type 0 where
    pub id : ℕ
    pub symbol : List ℕ
    pub quantity : F.Float
    pub filled_quantity : Option F.Float
    pub side : OrderSide
    pub status : BrokerOrderStatus
    pub filled_average_price : Option F.Float
    pub extended_hours : Option Bool
    pub limit_price : Option F.Float
    pub created_at : Option ℕ
    pub submitted_at : Option ℕ
    pub updated_at : Option ℕ
    pub filled_at : Option ℕ
    pub canceled_at : Option ℕ
    pub failed_at : Option ℕ

  pub record MarketOrder : Type 0 where
    pub symbol : List ℕ
    pub shares : F.Float
    pub direction : Direction
    pub client_order_id : ClientOrderId

  pub record AlpacaLimitOrder : Type 0 where
    pub symbol : List ℕ
    pub shares : F.Float
    pub direction : Direction
    pub limit_price : F.Float
    pub extended_hours : Bool
    pub client_order_id : ClientOrderId

  -- The price is that of a limit order; a market order has none.
  pub record OrderRequest : Type 0 where
    pub symbol : List ℕ
    pub quantity : F.Float
    pub side : OrderSide
    pub limit_price : Option F.Float
    pub time_in_force : TimeInForce
    pub extended_hours : Bool
    pub client_order_id : ClientOrderId

  pub record OrderPlacement : Type 0 where
    pub order_id : ℕ
    pub symbol : List ℕ
    pub shares : F.Float
    pub direction : Direction
    pub placed_at : ℕ
    pub extended_hours : Bool
    pub limit_price : Option F.Float

  pub record Calls (H : Http) : Type 0 where
    pub place_order : OrderRequest → Result OrderResponse (AlpacaBrokerApiError H)
    pub get_order : ℕ → Result OrderResponse (AlpacaBrokerApiError H)
    pub get_order_by_client_order_id :
        ClientOrderId → Result (Option OrderResponse) (AlpacaBrokerApiError H)
