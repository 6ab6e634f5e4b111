-- ===== src/Gateway/Budget.antt =====
-- crates/gateway/src/budget.rs: the fixed one minute window of the human tiers. Durations and
-- instants are numbers of nanoseconds; `duration_since` gives zero for an earlier instant, as the
-- truncated `-` does. A `Mutex` is its content and whether it is poisoned.
pub mod Laws
pub mod Rate
mod Tests
use st0x_alpaca.Prelude.{
  ℕ, ◌+◌, ◌-◌, ◌*◌, ◌%◌, min, Bool, true, false, Option, none, some, if◌then◌else◌, leb, ltb, ◌==◌,
  Result, ok, err,
}
use st0x_alpaca.Catalog.Operation.{
  Operation, orders_get, conversions_get, wallet_transfer, wallet_find_deposit,
  tokenization_request, tokenization_find_redemption, issuer_request,
}

-- `WINDOW`: sixty seconds.
abbrev pub window_length : ℕ
window_length = 60 * 1_000_000_000

abbrev pub u32_max : ℕ
u32_max = 4_294_967_295

-- The unchecked `used += cost` of a release build wraps.
abbrev add_u32 : ℕ → ℕ → ℕ
add_u32 a b = (a + b) % 4_294_967_296

pub cost : Operation → ℕ
cost orders_get = 0
cost conversions_get = 0
cost wallet_transfer = 0
cost wallet_find_deposit = 0
cost tokenization_request = 0
cost tokenization_find_redemption = 0
cost issuer_request = 0
cost _ = 1

pub record HumanBudget : Type 0 where
  pub per_minute : ℕ
  pub window : Option (ℕ × ℕ)
  pub poisoned : Bool

pub new : ℕ → HumanBudget
new per_minute = record { per_minute = per_minute; window = none; poisoned = false }

-- `get_or_insert((now, 0))`, then the reset of a window that has run out.
pub current : Option (ℕ × ℕ) → ℕ → ℕ × ℕ
current none now = (now, 0)
current (some (started, used)) now =
    if leb window_length (now - started) then (now, 0) else (started, used)

-- The guard and the charge, on the window that is current.
charge : HumanBudget → ℕ × ℕ → ℕ → ℕ → HumanBudget × Result (Unit {0}) ℕ
charge b (started, used) units now =
    if ltb b.per_minute (min (used + units) u32_max)
    then (record b { window = some (started, used) }, err (window_length - (now - started)))
    else (record b { window = some (started, add_u32 used units) }, ok tt)

pub take_at : HumanBudget → ℕ → ℕ → HumanBudget × Result (Unit {0}) ℕ
unfolding current charge
take_at b units now =
    if units == 0
    then (b, ok tt)
    else if b.poisoned
    then (b, err window_length)
    else charge b (current b.window now) units now
