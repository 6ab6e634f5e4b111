-- ===== src/Errors/Classes.antt =====
-- src/core.rs: the classes that every client sorts its errors into, the status rules behind them,
-- and the failure of the hop to the gateway. A `Duration` is a number of nanoseconds.
use st0x_alpaca.Prelude.{ℕ, Bool, ◌||◌, Option, none, some, leb, ◌==◌, if◌then◌else◌}
use st0x_alpaca.Errors.Http.{Http}

pub data Permanence : Type 0 where
  permanent transient : Permanence

pub record Backpressure : Type 0 where
  pub retry_after : Option ℕ

module _ (H : Http) where
  unfoldable pub response_status_permanence : ℕ → Permanence
  response_status_permanence status =
      if status == 408 || status == 429
      then transient
      else if H.is_client_error status || H.is_redirection status
      then permanent
      else transient

unfoldable pub status_permanence : ℕ → Permanence
status_permanence status_code =
    if status_code == 408 || status_code == 429 || leb 500 status_code then transient else permanent

pub record GatewayHopError : Type 0 where
  pub retryable : Bool
  pub outcome_unknown : Bool
  pub retryable_with_same_key : Bool
  pub retry_after : Option ℕ

unfoldable pub hop_permanence : GatewayHopError → Permanence
hop_permanence hop = if hop.retryable || hop.retryable_with_same_key then transient else permanent

unfoldable pub hop_backpressure : GatewayHopError → Option Backpressure
hop_backpressure hop = elim hop.retry_after [
  | none ↦ none
  | some wait ↦ some (record { retry_after = some wait })
]
