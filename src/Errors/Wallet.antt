-- ===== src/Errors/Wallet.antt =====
-- src/wallet/client.rs: failures of a crypto wallet call.
use st0x_alpaca.Prelude.{ℕ, Option, none, some, ◌==◌, if◌then◌else◌}
use st0x_alpaca.Errors.Http.{Http}
use st0x_alpaca.Errors.Classes.{
  Permanence, permanent, transient, Backpressure, response_status_permanence, GatewayHopError,
  hop_permanence, hop_backpressure,
}
use st0x_alpaca.Errors.Jwt.{KmsJwtError, is_deterministic, is_rate_limited}
use st0x_alpaca.Errors.Jwt

pub data AlpacaWalletError (H : Http) : Type 0 where
  reqwest : H.Error → AlpacaWalletError H
  auth : KmsJwtError H → AlpacaWalletError H
  private_key_jwt_unsupported invalid_base_url : AlpacaWalletError H
  api_error : ℕ → Option ℕ → AlpacaWalletError H
  parse_error utf8 from_hex transfer_not_found failed_transfer_has_tx : AlpacaWalletError H
  transfer_failed completed_transfer_missing_tx transfer_timeout : AlpacaWalletError H
  invalid_status_transition address_not_whitelisted no_whitelist_entries : AlpacaWalletError H
  deposit_timeout invalid_deposit_transition : AlpacaWalletError H
  gateway : GatewayHopError → AlpacaWalletError H
  not_sent : AlpacaWalletError H

module _ {H : Http} where
  unfoldable pub backpressure : AlpacaWalletError H → Option Backpressure
  unfolding is_rate_limited Jwt.retry_after hop_backpressure
  backpressure (api_error status hint) =
      if status == 429 then some (record { retry_after = hint }) else none
  backpressure (auth error) =
      if is_rate_limited error then some (record { retry_after = Jwt.retry_after error }) else none
  backpressure (gateway hop) = hop_backpressure hop
  backpressure _ = none

  unfoldable pub permanence : AlpacaWalletError H → Permanence
  unfolding is_deterministic response_status_permanence hop_permanence
  permanence (api_error status _) = response_status_permanence H status
  permanence (reqwest source) = if H.is_builder source then permanent else transient
  permanence (auth error) = if is_deterministic error then permanent else transient
  permanence (gateway hop) = hop_permanence hop
  permanence _ = permanent
