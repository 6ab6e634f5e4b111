-- ===== src/Order/Conversion.antt =====
-- src/broker/order.rs: the poll of a conversion order, which cancels the order at its deadline and
-- waits for the cancel to settle (`poll_until_terminal`, `cancel_and_settle`), and what it returns.
--
-- The poll is a step function: a move is one step of it or of the clock, `answer` and `cancelled` are
-- what a read and a cancel request ended with, and `cut` ends a read at the end of its window. `step`
-- is `none` where a move is not possible. An amount is of a type `F`; of an order, what decisions read.
pub mod Laws
pub mod Settlement
mod Tests
use st0x_alpaca.Prelude.{
  ℕ, ◌+◌, ◌==◌, ◌&&◌, Bool, true, false, List, [], ◌∷◌, Option, none, some, leb, ltb, if◌then◌else◌,
  Result, ok, err,
}
use st0x_alpaca.Errors.Http.{Http}
use st0x_alpaca.Errors.Classes.{Permanence, transient, Backpressure}
use st0x_alpaca.Errors.Broker.{
  AlpacaBrokerApiError, api_error, backpressure, permanence, conversion_order_not_found,
  conversion_cancel_not_settled, conversion_timed_out, crypto_order_failed, incomplete_order,
  float_conversion,
}
use st0x_alpaca.RateLimit.{
  BackpressurePolicy, return, retry_in_place, next_poll_delay, capped_backpressure_wait,
  poll_deadline,
}
use st0x_alpaca.Order.Status.{
  BrokerOrderStatus, CryptoOrderFailureReason, canceled, classify, TerminalCryptoOutcome,
  terminal_outcome,
}
use st0x_alpaca.Order.Status

pub record CryptoOrderResponse (F : Type 0) : Type 0 where
  pub id : ℕ
  pub status : BrokerOrderStatus
  pub filled_quantity : Option F

pub record ConversionPollDeadlines : Type 0 where
  pub order : ℕ
  pub cancel_settle : ℕ
  pub interval : ℕ
  pub backpressure : BackpressurePolicy

-- Five minutes, thirty seconds and half a second.
abbrev pub production : ConversionPollDeadlines
production = record {
  order = 300_000_000_000;
  cancel_settle = 30_000_000_000;
  interval = 500_000_000;
  backpressure = retry_in_place;
}

pub data CancellationOutcome : Type 0 where
  requested order_not_found : CancellationOutcome

-- What became of a cancel.
pub data DeadlineCancel : Type 0 where
  accepted declined failed : DeadlineCancel

is_failed : DeadlineCancel → Bool
is_failed failed = true
is_failed _ = false

is_return : BackpressurePolicy → Bool
is_return return = true
is_return _ = false

is_transient : Permanence → Bool
is_transient transient = true
is_transient _ = false

pub record SettledConversionOrder (F : Type 0) : Type 0 where
  pub order : CryptoOrderResponse F
  pub outcome : TerminalCryptoOutcome
  pub deadline_cancelled : Bool

-- `order.classify().terminal()`.
unfoldable pub outcome_of : {F : Type 0} → CryptoOrderResponse F → Option TerminalCryptoOutcome
unfolding classify terminal_outcome
outcome_of order = terminal_outcome (classify order.status)

-- `order.filled_quantity.or(last_filled)`.
or_last : {F : Type 0} → Option F → Option F → Option F
or_last none last = last
or_last (some filled) last = some filled

module _ (H : Http) where
  -- What `request_cancel` makes of the broker's answer.
  unfoldable pub request_cancel :
      Result CancellationOutcome (AlpacaBrokerApiError H)
      → Result DeadlineCancel (AlpacaBrokerApiError H)
  request_cancel (ok requested) = ok accepted
  request_cancel (ok order_not_found) = err conversion_order_not_found
  request_cancel (err (api_error status message hint)) =
      if status == 422 then ok declined else ok failed
  request_cancel (err error) = ok failed

  -- The wait before an order is read again after a failure, or `none` where the poll ends with it.
  after_backpressure : ConversionPollDeadlines → Option Backpressure → Option ℕ
  unfolding is_return capped_backpressure_wait
  after_backpressure deadlines none = some deadlines.interval
  after_backpressure deadlines (some pressure) =
      if is_return deadlines.backpressure
      then none
      else some (capped_backpressure_wait pressure deadlines.interval)

  unfoldable pub read_again : ConversionPollDeadlines → AlpacaBrokerApiError H → Option ℕ
  unfolding is_transient after_backpressure backpressure permanence
  read_again deadlines error =
      if is_transient (permanence error)
      then after_backpressure deadlines (backpressure error)
      else none

  module _ (F : Type 0) where
    -- The loop of reads at its test, in a read and asleep; the first cancel; the settle window at its
    -- test, in a read, asleep and in another cancel; and returned.
    pub data Phase : Type 0 where
      checking reading cancelling settle_checking settle_reading cancelling_again : Phase
      sleeping settle_sleeping : ℕ → Phase
      returned : Result (SettledConversionOrder F) (AlpacaBrokerApiError H) → Phase

    -- `orders` records the orders that reads answered with, `cancels` when cancels were answered and
    -- what became of them.
    pub record PollState : Type 0 where
      pub now : ℕ
      pub window_end : ℕ
      pub filled : Option F
      pub cancel : DeadlineCancel
      pub phase : Phase
      pub orders : List (CryptoOrderResponse F)
      pub cancels : List (ℕ × Result DeadlineCancel (AlpacaBrokerApiError H))

    pub start : ℕ → PollState
    start now = record {
      now = now;
      window_end = 0;
      filled = none;
      cancel = failed;
      phase = checking;
      orders = [];
      cancels = [];
    }

    pub data Move : Type 0 where
      check cut wake : Move
      tick : ℕ → Move
      answer : Result (CryptoOrderResponse F) (AlpacaBrokerApiError H) → Move
      cancelled : Result CancellationOutcome (AlpacaBrokerApiError H) → Move

    module _ (checked_add : ℕ → ℕ → Option ℕ) (deadlines : ConversionPollDeadlines)
        (deadline : ℕ) where
      not_settled : PollState → PollState
      not_settled s = record s { phase = returned (err conversion_cancel_not_settled) }

      settled : PollState → CryptoOrderResponse F → TerminalCryptoOutcome → Bool → PollState
      settled s order outcome deadline_cancelled = record s {
        phase = returned (
            ok (record {
              order = order;
              outcome = outcome;
              deadline_cancelled = deadline_cancelled;
            }));
      }

      sleep : PollState → ℕ → PollState
      unfolding next_poll_delay
      sleep s delay = record s { phase = sleeping (s.now + next_poll_delay delay deadline s.now) }

      settle_sleep : PollState → PollState
      unfolding next_poll_delay
      settle_sleep s = record s {
        phase = settle_sleeping (s.now + next_poll_delay deadlines.interval s.window_end s.now);
      }

      -- An order that was read, and its outcome where it has one.
      after_read : PollState → CryptoOrderResponse F → Option TerminalCryptoOutcome → PollState
      unfolding settled sleep or_last
      after_read s order (some outcome) = settled s order outcome false
      after_read s order none =
          sleep (record s { filled = or_last order.filled_quantity s.filled }) deadlines.interval

      settle_read : PollState → CryptoOrderResponse F → Option TerminalCryptoOutcome → PollState
      unfolding settled settle_sleep or_last
      settle_read s order (some outcome) = settled s order outcome true
      settle_read s order none =
          settle_sleep (record s { filled = or_last order.filled_quantity s.filled })

      after_error : PollState → AlpacaBrokerApiError H → Option ℕ → PollState
      unfolding sleep
      after_error s error none = record s { phase = returned (err error) }
      after_error s error (some delay) = sleep s delay

      log_cancel : PollState → Result DeadlineCancel (AlpacaBrokerApiError H) → PollState
      log_cancel s result = record s { cancels = (s.now, result) ∷ s.cancels }

      -- The first cancel opens the settle window.
      open_window : PollState → Result DeadlineCancel (AlpacaBrokerApiError H) → PollState
      unfolding poll_deadline
      open_window s (err error) = record s { phase = returned (err error) }
      open_window s (ok cancel) = record s {
        cancel = cancel;
        window_end = poll_deadline checked_add s.now deadlines.cancel_settle;
        phase = settle_checking;
      }

      keep_window : PollState → Result DeadlineCancel (AlpacaBrokerApiError H) → PollState
      keep_window s (err error) = record s { phase = returned (err error) }
      keep_window s (ok cancel) = record s { cancel = cancel; phase = settle_checking }

      -- A cancel that the broker never took is sent again while the window lasts.
      after_settle_sleep : PollState → PollState
      unfolding is_failed
      after_settle_sleep s =
          if is_failed s.cancel && ltb s.now s.window_end
          then record s { phase = cancelling_again }
          else record s { phase = settle_checking }

      moved : Move → Phase → PollState → Option PollState
      unfolding not_settled after_read settle_read settle_sleep after_error read_again log_cancel
          open_window keep_window after_settle_sleep request_cancel outcome_of
      moved (tick d) ph s = some (record s { now = s.now + d })
      moved check checking s =
          if ltb s.now deadline
          then some (record s { phase = reading })
          else some (record s { phase = cancelling })
      moved cut reading s =
          if leb deadline s.now then some (record s { phase = cancelling }) else none
      moved (answer (ok order)) reading s =
          some (after_read (record s { orders = order ∷ s.orders }) order (outcome_of order))
      moved (answer (err error)) reading s = some (after_error s error (read_again deadlines error))
      moved wake (sleeping until) s =
          if leb until s.now then some (record s { phase = checking }) else none
      moved (cancelled result) cancelling s =
          some (open_window (log_cancel s (request_cancel result)) (request_cancel result))
      moved check settle_checking s =
          if ltb s.now s.window_end
          then some (record s { phase = settle_reading })
          else some (not_settled s)
      moved cut settle_reading s = if leb s.window_end s.now then some (not_settled s) else none
      moved (answer (ok order)) settle_reading s =
          some (settle_read (record s { orders = order ∷ s.orders }) order (outcome_of order))
      moved (answer (err error)) settle_reading s = some (settle_sleep s)
      moved wake (settle_sleeping until) s =
          if leb until s.now then some (after_settle_sleep s) else none
      moved (cancelled result) cancelling_again s =
          some (keep_window (log_cancel s (request_cancel result)) (request_cancel result))
      moved _ ph s = none

      pub step : Move → PollState → Option PollState
      unfolding moved
      step m s = moved m s.phase s

      pub run : List Move → PollState → Option PollState
      run [] s = some s
      run (m ∷ moves) s = elim (step m s) [ none ↦ none | some s' ↦ run moves s' ]
