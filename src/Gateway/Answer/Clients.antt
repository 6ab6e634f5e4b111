-- ===== src/Gateway/Answer/Clients.antt =====
-- crates/gateway/src/answer.rs: `wallet`, `tokenization` and `network_refusal`.
use st0x_alpaca.Prelude.{List, ℕ, [], ◌∷◌, Option, none, some, if◌then◌else◌}
use st0x_alpaca.Errors.Http.{Http}
use st0x_alpaca.Errors.Classes.{permanent}
use st0x_alpaca.Errors.Jwt
use st0x_alpaca.Errors.Wallet.{AlpacaWalletError}
use st0x_alpaca.Errors.Wallet
use st0x_alpaca.Errors.Tokenization.{AlpacaTokenizationError, is_definitive_mint_rejection}
use st0x_alpaca.Errors.Tokenization
use st0x_alpaca.Gateway.Failure.{
  Failure, new, rejection, upstream_transient, RejectionReason, address_not_whitelisted,
  request_not_found, wrong_network, network_missing, insufficient_position, unsupported_account,
  invalid_parameters,
}
use st0x_alpaca.Gateway.Answer.{
  Sent, read, mutation, untyped, unsent, unsendable, never_left, api_failure, throttled,
}

unfoldable pub network_refusal : Sent → RejectionReason → List ℕ → Failure
unfolding untyped rejection
network_refusal read reason request_id = record (rejection reason) {
  alpaca_object_ids = request_id ∷ [];
}
network_refusal mutation reason request_id = record (untyped mutation permanent) {
  alpaca_object_ids = request_id ∷ [];
}

module _ (H : Http) where
  wallet_status : AlpacaWalletError H → Option ℕ
  wallet_status (Wallet.api_error status _) = some status
  wallet_status _ = none

  -- The `match` below the throttling check.
  wallet_unthrottled : AlpacaWalletError H → Sent → Failure
  unfolding new rejection unsent unsendable never_left untyped api_failure Wallet.permanence
  wallet_unthrottled Wallet.address_not_whitelisted sent = rejection address_not_whitelisted
  wallet_unthrottled Wallet.no_whitelist_entries sent = rejection address_not_whitelisted
  wallet_unthrottled (Wallet.reqwest source) sent =
      if never_left H source
      then unsent H source
      else untyped sent (Wallet.permanence {H = H} (Wallet.reqwest source))
  wallet_unthrottled Wallet.not_sent sent = new upstream_transient
  wallet_unthrottled (Wallet.auth Jwt.not_sent) sent = new upstream_transient
  wallet_unthrottled (Wallet.auth e) sent = unsendable (Wallet.permanence {H = H} (Wallet.auth e))
  wallet_unthrottled Wallet.invalid_base_url sent =
      unsendable (Wallet.permanence {H = H} Wallet.invalid_base_url)
  wallet_unthrottled Wallet.transfer_not_found sent = record (rejection request_not_found) {
    alpaca_status = some 404;
  }
  wallet_unthrottled (Wallet.api_error status hint) sent =
      api_failure H status sent (Wallet.permanence {H = H} (Wallet.api_error status hint))
  wallet_unthrottled error sent = untyped sent (Wallet.permanence {H = H} error)

  unfoldable pub wallet : AlpacaWalletError H → Sent → Failure
  unfolding wallet_unthrottled wallet_status throttled Wallet.backpressure
  wallet error sent = elim (Wallet.backpressure error) [
    | some pressure ↦ throttled pressure.retry_after (wallet_status error)
    | none ↦ wallet_unthrottled error sent
  ]

  tokenization_status : AlpacaTokenizationError H → Option ℕ
  tokenization_status (Tokenization.api_error status _) = some status
  tokenization_status _ = none

  mint_rejection_reason : AlpacaTokenizationError H → RejectionReason
  mint_rejection_reason Tokenization.insufficient_position = insufficient_position
  mint_rejection_reason Tokenization.unsupported_account = unsupported_account
  mint_rejection_reason _ = invalid_parameters

  -- The `match` below the definitive mint rejections.
  tokenization_indefinite : AlpacaTokenizationError H → Sent → Failure
  unfolding new rejection unsent unsendable never_left untyped api_failure network_refusal
      Tokenization.permanence
  tokenization_indefinite Tokenization.not_sent sent = new upstream_transient
  tokenization_indefinite (Tokenization.auth Jwt.not_sent) sent = new upstream_transient
  tokenization_indefinite (Tokenization.auth e) sent =
      unsendable (Tokenization.permanence {H = H} (Tokenization.auth e))
  tokenization_indefinite Tokenization.invalid_base_url sent =
      unsendable (Tokenization.permanence {H = H} Tokenization.invalid_base_url)
  tokenization_indefinite Tokenization.private_key_jwt_unsupported sent =
      unsendable (Tokenization.permanence {H = H} Tokenization.private_key_jwt_unsupported)
  tokenization_indefinite (Tokenization.reqwest source) sent =
      if never_left H source
      then unsent H source
      else untyped sent (Tokenization.permanence {H = H} (Tokenization.reqwest source))
  tokenization_indefinite Tokenization.request_not_found sent = rejection request_not_found
  tokenization_indefinite (Tokenization.wrong_network id) sent =
      network_refusal sent wrong_network id
  tokenization_indefinite (Tokenization.network_missing id) sent =
      network_refusal sent network_missing id
  tokenization_indefinite (Tokenization.api_error status hint) mutation =
      record (untyped mutation
        (Tokenization.permanence {H = H} (Tokenization.api_error status hint))) {
          alpaca_status = some status;
        }
  tokenization_indefinite (Tokenization.api_error status hint) read =
      api_failure H status read
        (Tokenization.permanence {H = H} (Tokenization.api_error status hint))
  tokenization_indefinite error sent = untyped sent (Tokenization.permanence {H = H} error)

  -- `status_code()` is `None` on the three definitive rejections.
  tokenization_unthrottled : AlpacaTokenizationError H → Sent → Failure
  unfolding tokenization_indefinite is_definitive_mint_rejection mint_rejection_reason rejection
  tokenization_unthrottled error sent =
      if is_definitive_mint_rejection error
      then rejection (mint_rejection_reason error)
      else tokenization_indefinite error sent

  unfoldable pub tokenization : AlpacaTokenizationError H → Sent → Failure
  unfolding tokenization_unthrottled tokenization_status throttled Tokenization.backpressure
  tokenization error sent = elim (Tokenization.backpressure error) [
    | some pressure ↦ throttled pressure.retry_after (tokenization_status error)
    | none ↦ tokenization_unthrottled error sent
  ]
