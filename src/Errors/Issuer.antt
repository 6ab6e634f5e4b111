-- ===== src/Errors/Issuer.antt =====
-- src/core.rs: the issuer client's errors, what may be retried, and whether a failed attempt may
-- have reached Alpaca.
use st0x_alpaca.Prelude.{
  ℕ, Bool, true, false, ◌&&◌, ◌||◌, not, Option, none, some, leb, ltb, ◌==◌, if◌then◌else◌,
}
use st0x_alpaca.Errors.Http.{Http}
use st0x_alpaca.Errors.Classes.{Permanence, permanent, transient, Backpressure, status_permanence}
use st0x_alpaca.Errors.Jwt.{KmsJwtError, is_deterministic, is_rate_limited}
use st0x_alpaca.Errors.Jwt

pub data AlpacaError (H : Http) : Type 0 where
  invalid_url parse auth request_not_found response_id_mismatch : AlpacaError H
  unsupported_tokenization_network not_sent : AlpacaError H
  reqwest : H.Error → AlpacaError H
  jwt : KmsJwtError H → AlpacaError H
  api : ℕ → AlpacaError H
  rate_limited : Option ℕ → AlpacaError H

module _ {H : Http} where
  unfoldable pub is_retryable : AlpacaError H → Bool
  unfolding is_deterministic
  is_retryable (reqwest error) = not (H.is_decode error)
  is_retryable (api status) = (leb 500 status && leb status 599) || status == 429
  is_retryable (rate_limited _) = true
  is_retryable (jwt error) = not (is_deterministic error)
  is_retryable _ = false

  unfoldable pub backpressure : AlpacaError H → Option Backpressure
  unfolding is_rate_limited Jwt.retry_after
  backpressure (rate_limited hint) = some (record { retry_after = hint })
  backpressure (jwt error) =
      if is_rate_limited error then some (record { retry_after = Jwt.retry_after error }) else none
  backpressure _ = none

  unfoldable pub permanence : AlpacaError H → Permanence
  unfolding is_deterministic status_permanence
  permanence (reqwest error) =
      if H.is_builder error || H.is_decode error then permanent else transient
  permanence (jwt error) = if is_deterministic error then permanent else transient
  permanence (rate_limited _) = transient
  permanence (api status) = status_permanence status
  permanence _ = permanent

  unfoldable pub may_have_reached_alpaca : AlpacaError H → Bool
  may_have_reached_alpaca (api status) = not (leb 400 status && ltb status 500) || status == 408
  may_have_reached_alpaca (reqwest source) = not (H.is_builder source || H.is_connect source)
  may_have_reached_alpaca parse = true
  may_have_reached_alpaca response_id_mismatch = true
  may_have_reached_alpaca _ = false

pub record IssuerCallError (H : Http) : Type 0 where
  pub written : Bool
  pub alpaca_status : Option ℕ
  pub error : AlpacaError H

module _ {H : Http} where
  answered_with : AlpacaError H → ℕ → Bool
  answered_with (api status_code) status = status_code == status
  answered_with _ status = false

  unfoldable pub written_on : IssuerCallError H → ℕ → IssuerCallError H
  unfolding answered_with
  written_on failure status = record failure {
    written = failure.written || answered_with failure.error status;
  }
