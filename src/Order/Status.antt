-- ===== src/Order/Status.antt =====
-- The statuses of an order and what they mean: src/broker/order.rs, src/broker/mod.rs and
-- src/broker/lifecycle.
pub mod Laws
use st0x_alpaca.Prelude.{Bool, true, false, Option, none, some}

-- As Alpaca reports it.
pub data BrokerOrderStatus : Type 0 where
  new pending_new partially_filled filled done_for_day canceled expired replaced : BrokerOrderStatus
  pending_cancel pending_replace rejected suspended calculated stopped : BrokerOrderStatus
  accepted_for_bidding accepted : BrokerOrderStatus

pub data OrderStatus : Type 0 where
  pending submitted partially_filled filled cancelled failed : OrderStatus

pub data OrderFailureTerminality : Type 0 where
  terminal not_terminal : OrderFailureTerminality

pub data CryptoOrderFailureReason : Type 0 where
  canceled expired rejected done_for_day replaced suspended : CryptoOrderFailureReason
  calculated : CryptoOrderFailureReason

unfoldable pub terminality : CryptoOrderFailureReason → OrderFailureTerminality
terminality canceled = terminal
terminality expired = terminal
terminality rejected = terminal
terminality done_for_day = terminal
terminality replaced = not_terminal
terminality suspended = not_terminal
terminality calculated = not_terminal

unfoldable pub classify_broker_status :
    BrokerOrderStatus → OrderStatus × Option OrderFailureTerminality
unfolding terminality
classify_broker_status new = (submitted, none)
classify_broker_status accepted = (submitted, none)
classify_broker_status pending_new = (submitted, none)
classify_broker_status accepted_for_bidding = (submitted, none)
classify_broker_status pending_cancel = (submitted, none)
classify_broker_status pending_replace = (submitted, none)
classify_broker_status stopped = (submitted, none)
classify_broker_status partially_filled = (partially_filled, none)
classify_broker_status filled = (filled, none)
classify_broker_status canceled = (cancelled, none)
classify_broker_status expired = (failed, some (terminality expired))
classify_broker_status rejected = (failed, some (terminality rejected))
classify_broker_status done_for_day = (failed, some (terminality done_for_day))
classify_broker_status replaced = (failed, some (terminality replaced))
classify_broker_status suspended = (failed, some (terminality suspended))
classify_broker_status calculated = (failed, some (terminality calculated))

pub data CryptoOrderOutcome : Type 0 where
  filled pending : CryptoOrderOutcome
  failed : CryptoOrderFailureReason → CryptoOrderOutcome

unfoldable pub classify : BrokerOrderStatus → CryptoOrderOutcome
classify filled = filled
classify new = pending
classify pending_new = pending
classify partially_filled = pending
classify accepted = pending
classify accepted_for_bidding = pending
classify pending_cancel = pending
classify pending_replace = pending
classify stopped = pending
classify canceled = failed canceled
classify expired = failed expired
classify rejected = failed rejected
classify done_for_day = failed done_for_day
classify replaced = failed replaced
classify suspended = failed suspended
classify calculated = failed calculated

pub data TerminalCryptoOutcome : Type 0 where
  filled : TerminalCryptoOutcome
  failed : CryptoOrderFailureReason → TerminalCryptoOutcome

settled_failure : CryptoOrderFailureReason → OrderFailureTerminality → Option TerminalCryptoOutcome
settled_failure reason terminal = some (failed reason)
settled_failure reason not_terminal = none

-- `CryptoOrderOutcome::terminal`.
unfoldable pub terminal_outcome : CryptoOrderOutcome → Option TerminalCryptoOutcome
unfolding settled_failure terminality
terminal_outcome filled = some filled
terminal_outcome pending = none
terminal_outcome (failed done_for_day) = none
terminal_outcome (failed reason) = settled_failure reason (terminality reason)
