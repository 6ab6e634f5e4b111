-- ===== src/Gateway/Answer.antt =====
-- crates/gateway/src/answer.rs: the answers that the mapping of every client's errors is built of.
pub mod Broker
pub mod Clients
pub mod Issuer
pub mod Laws
mod Tests
use st0x_alpaca.Prelude.{
  ℕ, Bool, true, false, not, ◌&&◌, ◌||◌, Option, none, some, ◌==◌, if◌then◌else◌,
}
use st0x_alpaca.Errors.Http.{Http}
use st0x_alpaca.Errors.Classes.{Permanence, permanent, transient}
use st0x_alpaca.Gateway.Failure.{
  Failure, new, rejection, unavailable, upstream_transient, outcome_unknown, backpressure,
  alpaca_api,
}

pub data Sent : Type 0 where
  read mutation : Sent

abbrev pub is_transient : Permanence → Bool
is_transient permanent = false
is_transient transient = true

unfoldable pub untyped : Sent → Permanence → Failure
unfolding new
untyped read perm = record (new upstream_transient) { retryable = is_transient perm }
untyped mutation perm = new outcome_unknown

unfoldable pub unsendable : Permanence → Failure
unfolding new
unsendable perm = record (new unavailable) { retryable = is_transient perm }

unfoldable pub throttled : Option ℕ → Option ℕ → Failure
unfolding new
throttled retry_after none = record (new unavailable) { retry_after = retry_after }
throttled retry_after (some status) = record (new backpressure) {
  alpaca_status = some status;
  retry_after = retry_after;
}

module _ (H : Http) where
  unfoldable pub never_left : H.Error → Bool
  never_left source = H.is_builder source || H.is_connect source

  unfoldable pub unsent : H.Error → Failure
  unfolding untyped new
  unsent source = if H.is_builder source then untyped read permanent else new unavailable

  unfoldable pub api_failure : ℕ → Sent → Permanence → Failure
  unfolding untyped rejection
  api_failure status sent perm =
      let failure =
        if H.is_client_error status && (not (status == 408) && not (status == 429))
        then rejection alpaca_api
        else untyped sent perm in
      record failure { alpaca_status = some status }
