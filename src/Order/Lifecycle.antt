-- ===== src/Order/Lifecycle.antt =====
-- src/broker/lifecycle: the texts of an order's direction, key and status. The UUID crate is `Uuids`.
pub mod Laws
mod Tests
use st0x_alpaca.Prelude.{
  ℕ, ◌+◌, ◌-◌, ◌==◌, ◌&&◌, leb, ◌≡◌, Bool, true, false, List, [], ◌∷◌, ◌++◌, map, Option, none,
  some, if◌then◌else◌, Result, ok, err, codes, is_prefix,
}
use st0x_alpaca.Stream.Event.{same_bytes}
use st0x_alpaca.Order.Placement.{Direction, buy, sell, ClientOrderId, automated, cli}
use st0x_alpaca.Order.Placement
use st0x_alpaca.Order.Status.{
  OrderStatus, pending, submitted, partially_filled, filled, cancelled, failed,
}
use st0x_alpaca.Order.Status

-- A UUID is written in hexadecimal digits and hyphens, so its text does not begin with `cli-`, and is
-- read back.
pub record Uuids : Type 0 where
  pub display : ℕ → List ℕ
  pub parse_str : List ℕ → Option ℕ
  pub parse_str-display : (uuid : ℕ) → parse_str (display uuid) ≡ some uuid
  pub display_lem : (uuid : ℕ) → is_prefix (codes "cli-") (display uuid) ≡ false

-- `char::to_ascii_uppercase`.
unfoldable pub to_upper : ℕ → ℕ
to_upper c = if leb 97 c && leb c 122 then c - 32 else c

unfoldable pub direction_text : Direction → List ℕ
direction_text Direction.buy = codes "BUY"
direction_text Direction.sell = codes "SELL"

direction_of : List ℕ → Option Direction
direction_of text =
    if same_bytes text (codes "BUY")
    then some Direction.buy
    else if same_bytes text (codes "SELL")
    then some Direction.sell
    else none

-- `Direction::from_str`.
unfoldable pub parse_direction : List ℕ → Option Direction
unfolding direction_of to_upper
parse_direction value = direction_of (map to_upper value)

-- `strip_prefix`, with the prefix first.
unfoldable pub strip_prefix : List ℕ → List ℕ → Option (List ℕ)
strip_prefix [] text = some text
strip_prefix (p ∷ ps) [] = none
strip_prefix (p ∷ ps) (c ∷ text) = let rest = strip_prefix ps text in if p == c then rest else none

abbrev pub cli_prefix : List ℕ
cli_prefix = codes "cli-"

module _ (U : Uuids) where
  unfoldable pub display : ClientOrderId → List ℕ
  display (automated uuid) = U.display uuid
  display (cli uuid) = cli_prefix ++ U.display uuid

  -- The key with this provenance, of the UUID that was read.
  keyed : (ℕ → ClientOrderId) → Option ℕ → Option ClientOrderId
  keyed key none = none
  keyed key (some uuid) = some (key uuid)

  -- `ClientOrderId::from_str`; `none` is the invalid UUID.
  unfoldable pub parse_key : List ℕ → Option ClientOrderId
  unfolding keyed strip_prefix
  parse_key value = elim (strip_prefix cli_prefix value) [
    | some rest ↦ keyed cli (U.parse_str rest)
    | none ↦ keyed automated (U.parse_str value)
  ]

unfoldable pub status_text : OrderStatus → List ℕ
status_text OrderStatus.pending = codes "PENDING"
status_text OrderStatus.submitted = codes "SUBMITTED"
status_text OrderStatus.partially_filled = codes "PARTIALLY_FILLED"
status_text OrderStatus.filled = codes "FILLED"
status_text OrderStatus.cancelled = codes "CANCELLED"
status_text OrderStatus.failed = codes "FAILED"

-- `OrderStatus::from_str`.
unfoldable pub parse_status : List ℕ → Option OrderStatus
parse_status value =
    if same_bytes value (codes "PENDING")
    then some OrderStatus.pending
    else if same_bytes value (codes "SUBMITTED")
    then some OrderStatus.submitted
    else if same_bytes value (codes "PARTIALLY_FILLED")
    then some OrderStatus.partially_filled
    else if same_bytes value (codes "FILLED")
    then some OrderStatus.filled
    else if same_bytes value (codes "CANCELLED")
    then some OrderStatus.cancelled
    else if same_bytes value (codes "FAILED")
    then some OrderStatus.failed
    else none
