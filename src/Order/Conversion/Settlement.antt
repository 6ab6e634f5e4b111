-- ===== src/Order/Conversion/Settlement.antt =====
-- src/broker/order.rs: what `poll_crypto_order_until_filled` makes of the order its poll ends with. The
-- test for zero is the amount crate's.
use st0x_alpaca.Prelude.{
  ◌≡◌, ◌↔◌, ◌⊎◌, Bool, true, false, Option, none, some, Result, ok, err, arith,
}
use st0x_alpaca.Errors.Http.{Http}
use st0x_alpaca.Errors.Broker.{
  AlpacaBrokerApiError, conversion_timed_out, crypto_order_failed, incomplete_order,
  float_conversion,
}
use st0x_alpaca.Order.Status.{CryptoOrderFailureReason, canceled, TerminalCryptoOutcome}
use st0x_alpaca.Order.Conversion.{CryptoOrderResponse, SettledConversionOrder}

module _ (H : Http) (F : Type 0) (is_zero : F → Option Bool) where
  nonzero :
      CryptoOrderResponse F → Option Bool → Result (CryptoOrderResponse F) (AlpacaBrokerApiError H)
  nonzero order none = err float_conversion
  nonzero order (some true) = err conversion_timed_out
  nonzero order (some false) = ok order

  partly_filled :
      CryptoOrderResponse F → Option F → Result (CryptoOrderResponse F) (AlpacaBrokerApiError H)
  unfolding nonzero
  partly_filled order none = err incomplete_order
  partly_filled order (some filled) = nonzero order (is_zero filled)

  cut_off :
      CryptoOrderResponse F
      → CryptoOrderFailureReason
      → Bool
      → Result (CryptoOrderResponse F) (AlpacaBrokerApiError H)
  unfolding partly_filled
  cut_off order canceled true = partly_filled order order.filled_quantity
  cut_off order _ _ = err crypto_order_failed

  unfoldable pub until_filled :
      SettledConversionOrder F → Result (CryptoOrderResponse F) (AlpacaBrokerApiError H)
  unfolding cut_off
  until_filled s = elim s.outcome [
    | TerminalCryptoOutcome.filled ↦ ok s.order
    | TerminalCryptoOutcome.failed reason ↦ cut_off s.order reason s.deadline_cancelled
  ]

  -- A conversion counts as done exactly when its order filled, or when it was cancelled at its deadline
  -- with a fill that is known not to be zero.
  pub until_filled_iff :
      (s : SettledConversionOrder F)
      → (until_filled s ≡ ok s.order) ↔ (
          (s.outcome ≡ TerminalCryptoOutcome.filled)
          ⊎ ((s.outcome ≡ TerminalCryptoOutcome.failed canceled)
              × (s.deadline_cancelled ≡ true)
              × (filled : F) × (s.order.filled_quantity ≡ some filled)
              × (is_zero filled ≡ some false)))
  unfolding until_filled
  until_filled_iff s = ground arith

  -- A conversion is reported as timed out only when it was cancelled at its deadline with a fill that
  -- is known to be zero, and then always: money that moved is never reported as a plain timeout.
  pub timed_out_iff :
      (s : SettledConversionOrder F)
      → (until_filled s ≡ err conversion_timed_out) ↔ (
          (s.outcome ≡ TerminalCryptoOutcome.failed canceled)
          × (s.deadline_cancelled ≡ true)
          × (filled : F) × (s.order.filled_quantity ≡ some filled)
          × (is_zero filled ≡ some true))
  unfolding until_filled
  timed_out_iff s = ground arith
