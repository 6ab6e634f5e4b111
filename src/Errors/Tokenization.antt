-- ===== src/Errors/Tokenization.antt =====
-- src/tokenization/client.rs: failures of a tokenization call. A `TokenizationRequestId` is the list
-- of its code points.
use st0x_alpaca.Prelude.{ℕ, Bool, true, false, List, Option, none, some, ◌==◌, if◌then◌else◌}
use st0x_alpaca.Errors.Http.{Http}
use st0x_alpaca.Errors.Classes.{
  Permanence, permanent, transient, Backpressure, response_status_permanence, GatewayHopError,
  hop_permanence, hop_backpressure,
}
use st0x_alpaca.Errors.Jwt.{KmsJwtError, is_deterministic, is_rate_limited}
use st0x_alpaca.Errors.Jwt

pub data AlpacaTokenizationError (H : Http) : Type 0 where
  reqwest : H.Error → AlpacaTokenizationError H
  auth : KmsJwtError H → AlpacaTokenizationError H
  private_key_jwt_unsupported json_parse utf8 : AlpacaTokenizationError H
  api_error : ℕ → Option ℕ → AlpacaTokenizationError H
  insufficient_position unsupported_account invalid_parameters : AlpacaTokenizationError H
  request_not_found duplicate_mint_issuer_request_id : AlpacaTokenizationError H
  invalid_base_url poll_timeout : AlpacaTokenizationError H
  wrong_network network_missing : List ℕ → AlpacaTokenizationError H
  gateway : GatewayHopError → AlpacaTokenizationError H
  not_sent : AlpacaTokenizationError H

module _ {H : Http} where
  unfoldable pub is_definitive_mint_rejection : AlpacaTokenizationError H → Bool
  is_definitive_mint_rejection insufficient_position = true
  is_definitive_mint_rejection unsupported_account = true
  is_definitive_mint_rejection invalid_parameters = true
  is_definitive_mint_rejection _ = false

  unfoldable pub backpressure : AlpacaTokenizationError H → Option Backpressure
  unfolding is_rate_limited Jwt.retry_after hop_backpressure
  backpressure (api_error status hint) =
      if status == 429 then some (record { retry_after = hint }) else none
  backpressure (auth error) =
      if is_rate_limited error then some (record { retry_after = Jwt.retry_after error }) else none
  backpressure (gateway hop) = hop_backpressure hop
  backpressure _ = none

  unfoldable pub permanence : AlpacaTokenizationError H → Permanence
  unfolding is_deterministic response_status_permanence hop_permanence
  permanence (api_error status _) = response_status_permanence H status
  permanence (reqwest source) = if H.is_builder source then permanent else transient
  permanence (auth error) = if is_deterministic error then permanent else transient
  permanence (gateway hop) = hop_permanence hop
  permanence _ = permanent
