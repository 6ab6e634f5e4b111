-- ===== src/Order/Lifecycle/Tests.antt =====
-- Examples for the texts of an order, with a UUID that is written as a zero and itself.
use st0x_alpaca.Prelude.{ℕ, ◌≡◌, refl, List, [], ◌∷◌, Option, none, some, codes, is_prefix}
use st0x_alpaca.Order.Placement.{Direction, cli}
use st0x_alpaca.Order.Lifecycle.{Uuids, parse_direction, display, parse_key, to_upper}
use st0x_alpaca.Order.Lifecycle.Laws.{parse_key-display}

abbrev second : List ℕ → Option ℕ
second (_ ∷ uuid ∷ []) = some uuid
second _ = none

abbrev uuids : Uuids
unfolding is_prefix
uuids = record {
  display = λ uuid. 48 ∷ uuid ∷ [];
  parse_str = second;
  parse_str-display = λ uuid. refl;
  display_lem = λ uuid. refl;
}

mixed_case : parse_direction (codes "Buy") ≡ some Direction.buy
unfolding parse_direction to_upper
mixed_case = refl

parse_key-display_example : parse_key uuids (display uuids (cli 7)) ≡ some (cli 7)
parse_key-display_example = parse_key-display uuids (cli 7)
