-- ===== src/Order/Lifecycle/Laws.antt =====
-- What is written of an order's key, direction and status is read back.
use st0x_alpaca.Prelude.{ℕ, ◌≡◌, refl, List, [], ◌∷◌, ◌++◌, none, some, arith, false, is_prefix, ap}
use st0x_alpaca.Order.Placement.{Direction, ClientOrderId, automated, cli}
use st0x_alpaca.Order.Status.{OrderStatus}
use st0x_alpaca.Order.Lifecycle.{
  Uuids, direction_text, parse_direction, strip_prefix, cli_prefix, display, parse_key, status_text,
  parse_status,
}

strip_prefix-append : (prefix text : List ℕ) → strip_prefix prefix (prefix ++ text) ≡ some text
unfolding strip_prefix
strip_prefix-append [] text = refl
strip_prefix-append (p ∷ ps) text = ground (arith, strip_prefix-append ps text)

strip_prefix-none :
    (prefix text : List ℕ) → is_prefix prefix text ≡ false → strip_prefix prefix text ≡ none
unfolding strip_prefix is_prefix
strip_prefix-none [] text h = ground (arith, h)
strip_prefix-none (p ∷ ps) [] h = refl
strip_prefix-none (p ∷ ps) (c ∷ text) h = ground (arith, h, strip_prefix-none ps text)

-- The text of an order's key is read back as the key, with its provenance: an automated placement is
-- never read as an operator's, nor the other way round.
pub parse_key-display : (U : Uuids) (key : ClientOrderId) → parse_key U (display U key) ≡ some key
unfolding parse_key display
parse_key-display U (automated uuid) = ground (
  arith,
  strip_prefix-none cli_prefix (U.display uuid) (U.display_lem uuid),
  U.parse_str-display uuid,
)
parse_key-display U (cli uuid) =
    ground (arith, strip_prefix-append cli_prefix (U.display uuid), U.parse_str-display uuid)

-- Two orders with the same key text have the same key.
pub display_injective : (U : Uuids) (a b : ClientOrderId) → display U a ≡ display U b → a ≡ b
display_injective U a b e =
    ground (arith, e, ap (parse_key U) e, parse_key-display U a, parse_key-display U b)

pub parse_direction-direction_text : (d : Direction) → parse_direction (direction_text d) ≡ some d
unfolding parse_direction direction_text
parse_direction-direction_text d = ground arith

pub parse_status-status_text :
    (status : OrderStatus) → parse_status (status_text status) ≡ some status
unfolding parse_status status_text
parse_status-status_text status = ground arith
