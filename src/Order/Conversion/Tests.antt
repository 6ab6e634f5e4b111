-- ===== src/Order/Conversion/Tests.antt =====
-- Examples for conversions: an order half filled by its deadline, a cancel that fails and one that is
-- accepted, and the end of it.
use st0x_alpaca.Prelude.{
  ℕ, ◌≡◌, ◌≤◌, ◌↔◌, ◌⊎◌, ◌+◌, ◌==◌, refl, Bool, true, false, List, [], ◌∷◌, Option, none, some, ok,
  err, All,
}
use st0x_alpaca.Errors.Sample.{http}
use st0x_alpaca.Errors.Broker.{api_error, http_client, conversion_cancel_not_settled}
use st0x_alpaca.RateLimit.{poll_deadline, next_poll_delay}
use st0x_alpaca.Order.Status.{
  BrokerOrderStatus, CryptoOrderFailureReason, TerminalCryptoOutcome, classify, terminal_outcome,
}
use st0x_alpaca.Order.Conversion.{
  CryptoOrderResponse, SettledConversionOrder, production, requested, accepted, failed, PollState,
  start, Move, check, wake, tick, answer, cancelled, returned, step, run, outcome_of,
  request_cancel,
}
use st0x_alpaca.Order.Conversion.Laws.{
  IsRepeated, is_some_cancel, Settles, run_cancels, run_settled,
}
use st0x_alpaca.Order.Conversion.Settlement.{until_filled, until_filled_iff}

abbrev checked_add : ℕ → ℕ → Option ℕ
checked_add start timeout = some (start + timeout)

abbrev deadline : ℕ
deadline = 300_000_000_000

abbrev working : CryptoOrderResponse ℕ
working = record { id = 1; status = BrokerOrderStatus.partially_filled; filled_quantity = some 40 }

abbrev stopped : CryptoOrderResponse ℕ
stopped = record { id = 1; status = BrokerOrderStatus.canceled; filled_quantity = none }

-- Up to the end of the first cancel.
abbrev until_cancel : List (Move http ℕ)
until_cancel =
    check
    ∷ answer (ok working)
    ∷ tick 300_000_000_000
    ∷ wake
    ∷ check
    ∷ cancelled (err (http_client 2))
    ∷ []

abbrev again : List (Move http ℕ)
again =
    check
    ∷ answer (ok working)
    ∷ tick 300_000_000_000
    ∷ wake
    ∷ check
    ∷ cancelled (err (http_client 2))
    ∷ check
    ∷ answer (err (api_error 500 [] none))
    ∷ tick 500_000_000
    ∷ wake
    ∷ cancelled (ok requested)
    ∷ check
    ∷ answer (ok stopped)
    ∷ []

abbrev settled_order : SettledConversionOrder ℕ
settled_order = record {
  order = stopped;
  outcome = TerminalCryptoOutcome.failed CryptoOrderFailureReason.canceled;
  deadline_cancelled = true;
}

abbrev settled_end : PollState http ℕ
settled_end = record (start http ℕ 0) {
  now = 300_500_000_000;
  window_end = 330_000_000_000;
  filled = some 40;
  cancel = accepted;
  phase = returned (ok settled_order);
  orders = stopped ∷ working ∷ [];
  cancels = (300_500_000_000, ok accepted) ∷ (300_000_000_000, ok failed) ∷ [];
}

settled_runs : run http ℕ checked_add production deadline again (start http ℕ 0) ≡ some settled_end
unfolding run step start outcome_of classify terminal_outcome request_cancel next_poll_delay
    poll_deadline
settled_runs = refl

run_cancels_example :
    All (λ c. deadline ≤ c.0) settled_end.cancels × IsRepeated http ℕ settled_end.cancels
run_cancels_example =
    run_cancels http ℕ checked_add production deadline 0 again settled_end settled_runs

run_settled_example :
    Settles http ℕ settled_end.orders settled_order
    × (true ≡ is_some_cancel http ℕ settled_end.cancels)
run_settled_example =
    run_settled http ℕ checked_add production deadline 0 again settled_end settled_order
      settled_runs refl

-- The same, but the window ends.
abbrev late : List (Move http ℕ)
late =
    check
    ∷ answer (ok working)
    ∷ tick 300_000_000_000
    ∷ wake
    ∷ check
    ∷ cancelled (ok requested)
    ∷ check
    ∷ answer (ok (record working { filled_quantity = none }))
    ∷ tick 30_000_000_000
    ∷ wake
    ∷ check
    ∷ []

abbrev late_end : PollState http ℕ
late_end = record (start http ℕ 0) {
  now = 330_000_000_000;
  window_end = 330_000_000_000;
  filled = some 40;
  cancel = accepted;
  phase = returned (err conversion_cancel_not_settled);
  orders = record working { filled_quantity = none } ∷ working ∷ [];
  cancels = (300_000_000_000, ok accepted) ∷ [];
}

abbrev is_zero : ℕ → Option Bool
is_zero amount = some (amount == 0)

abbrev half : SettledConversionOrder ℕ
half = record settled_order { order = record stopped { filled_quantity = some 40 } }

until_filled_iff_example : (until_filled http ℕ is_zero half ≡ ok half.order) ↔ (
    (half.outcome ≡ TerminalCryptoOutcome.filled)
    ⊎ ((half.outcome ≡ TerminalCryptoOutcome.failed CryptoOrderFailureReason.canceled)
        × (true ≡ true)
        × (filled : ℕ) × (some 40 ≡ some filled)
        × (is_zero filled ≡ some false)))
until_filled_iff_example = until_filled_iff http ℕ is_zero half
