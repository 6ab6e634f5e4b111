-- ===== src/Order/Status/Laws.antt =====
-- The two readings of an order status agree.
use st0x_alpaca.Prelude.{◌≡◌, Option, none, some, arith}
use st0x_alpaca.Order.Status.{
  BrokerOrderStatus, OrderStatus, OrderFailureTerminality, CryptoOrderFailureReason,
  classify_broker_status, CryptoOrderOutcome, classify, terminality,
}

-- What an equity order's reading says of a conversion's: filled with filled, a failure with a failure
-- of the same terminality, a cancellation with a final one, and all else with an order still working.
abbrev pub Agrees : OrderStatus × Option OrderFailureTerminality → CryptoOrderOutcome → Type 0
Agrees (OrderStatus.filled, t) outcome = (outcome ≡ CryptoOrderOutcome.filled) × (t ≡ none)
Agrees (OrderStatus.cancelled, t) outcome =
    (outcome ≡ CryptoOrderOutcome.failed CryptoOrderFailureReason.canceled) × (t ≡ none)
Agrees (OrderStatus.failed, t) outcome =
    (reason : CryptoOrderFailureReason) × (outcome ≡ CryptoOrderOutcome.failed reason)
    × (t ≡ some (terminality reason))
Agrees (_, t) outcome = (outcome ≡ CryptoOrderOutcome.pending) × (t ≡ none)

-- The two readings of a broker status, for an equity order and for a conversion, agree on whether it
-- filled, failed or is still working, and on whether a failure is final.
pub classify-Agrees :
    (status : BrokerOrderStatus) → Agrees (classify_broker_status status) (classify status)
unfolding classify_broker_status classify terminality
classify-Agrees status = ground arith
