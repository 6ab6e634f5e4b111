-- ===== src/Wallet/Transfer.antt =====
-- src/wallet/transfer.rs and the status rules of src/wallet/status.rs. The fields of a transfer that
-- no decision reads are one type, a hash is a number, and what the JSON crate reads is `Rows`.
pub mod Laws
use st0x_alpaca.Prelude.{
  ℕ, Bool, true, false, ◌&&◌, List, Option, none, some, ◌==◌, find, Result, ok, err, if◌then◌else◌,
}
use st0x_alpaca.Errors.Http.{Http}
use st0x_alpaca.Errors.Wallet.{
  AlpacaWalletError, api_error, parse_error, transfer_not_found, transfer_failed,
  failed_transfer_has_tx,
}

pub data TransferDirection : Type 0 where
  incoming outgoing : TransferDirection

pub data TransferStatus : Type 0 where
  pending processing complete failed : TransferStatus

unfoldable pub is_pending : TransferStatus → Bool
is_pending pending = true
is_pending processing = true
is_pending complete = false
is_pending failed = false

pub record Transfer (D : Type 0) : Type 0 where
  pub id : ℕ
  pub tx : Option ℕ
  pub direction : TransferDirection
  pub status : TransferStatus
  pub details : D

is_incoming : TransferDirection → Bool
is_incoming incoming = true
is_incoming outgoing = false

-- A row of the transfer list: its direction and the text of its hash, the number that a text of a hash
-- stands for, and the whole transfer; each where it parses.
pub record Rows (D : Type 0) : Type 1 where
  pub Row : Type 0
  pub Raw : Type 0
  pub key : Row → Option (Option Raw × TransferDirection)
  pub hash : Raw → Option ℕ
  pub transfer : Row → Option (Transfer D)

module _ (H : Http) (D : Type 0) where
  -- `map_err` of the read of one transfer.
  unfoldable pub get_transfer_error : AlpacaWalletError H → AlpacaWalletError H
  get_transfer_error (api_error status hint) =
      if status == 404 then transfer_not_found else api_error status hint
  get_transfer_error error = error

  tx_hash_state : TransferStatus → Option ℕ → Result (Option ℕ) (AlpacaWalletError H)
  tx_hash_state failed (some tx_hash) = err failed_transfer_has_tx
  tx_hash_state failed none = err transfer_failed
  tx_hash_state complete (some tx_hash) = ok (some tx_hash)
  tx_hash_state _ tx = ok none

  unfoldable pub transfer_tx_hash_state : Transfer D → Result (Option ℕ) (AlpacaWalletError H)
  unfolding tx_hash_state
  transfer_tx_hash_state transfer = tx_hash_state transfer.status transfer.tx

  module _ (R : Rows D) where
    same_hash : ℕ → Option R.Raw → Bool
    same_hash tx_hash none = false
    same_hash tx_hash (some raw) = elim (R.hash raw) [
      | none ↦ false
      | some parsed ↦ parsed == tx_hash
    ]

    -- The key that a row of the list is searched by.
    unfoldable pub is_deposit : ℕ → R.Row → Bool
    unfolding is_incoming same_hash
    is_deposit tx_hash row = elim (R.key row) [
      | none ↦ false
      | some (tx, direction) ↦ is_incoming direction && same_hash tx_hash tx
    ]

    -- The search of the list once it was read.
    unfoldable pub find_deposit :
        ℕ → List R.Row → Result (Option (Transfer D)) (AlpacaWalletError H)
    unfolding is_deposit
    find_deposit tx_hash rows = elim (find (is_deposit tx_hash) rows) [
      | none ↦ ok none
      | some row ↦ elim (R.transfer row) [
        | none ↦ err parse_error
        | some transfer ↦ ok (some transfer)
      ]
    ]

-- Whether the transition goes backwards.
is_regression : TransferStatus → TransferStatus → Bool
is_regression processing pending = true
is_regression complete next = true
is_regression failed next = true
is_regression _ next = false

-- `Ok` where the transition may be; what is logged of it is left out.
unfoldable pub parse_status_transition :
    TransferStatus → TransferStatus → Result TransferStatus (TransferStatus × TransferStatus)
unfolding is_regression
parse_status_transition prev next = if is_regression prev next then err (prev, next) else ok next
